-- ===== src/Runtime/ConfigExamples.antt =====
-- The router, the messages of a block and the pending block at concrete inputs:
-- locations are places, a message is the number of its instructions, and a topic is one more.
use qnch_chain.Prelude.{if◌then◌else◌, ◌≢◌, leb, ℕ, suc, ◌≡◌, refl, List, [], ◌∷◌, ok, err}
use qnch_chain.Runtime.Origins.{Place, parent, sibling, local_account, elsewhere}
use qnch_chain.Runtime.Router.{Sender, not_applicable, send_error, unless_applicable, Senders}

abbrev pub Location : Type 0
Location = Place ℕ

-- The upward queue takes at most 10 instructions; a ticket is the message with its queue, 0 for the
-- upward one.
abbrev upward : Sender Location ℕ (ℕ × ℕ) (Unit {0})
upward parent m = if leb m 10 then ok (0, m) else err (send_error tt)
upward (sibling n) m = err not_applicable
upward (local_account a) m = err not_applicable
upward elsewhere m = err not_applicable

abbrev sideways : Sender Location ℕ (ℕ × ℕ) (Unit {0})
sideways parent m = err not_applicable
sideways (sibling n) m = ok (n, m)
sideways (local_account a) m = err not_applicable
sideways elsewhere m = err not_applicable

abbrev first_taker :
    List (Sender Location ℕ (ℕ × ℕ) (Unit {0})) → Sender Location ℕ (ℕ × ℕ) (Unit {0})
first_taker [] l m = err not_applicable
first_taker (s ∷ ss) l m = unless_applicable (s l m) (first_taker ss l m)

pub upward-other : (l : Location) (m : ℕ) → l ≢ parent → upward l m ≡ err not_applicable
upward-other parent m h = absurd (h refl)
upward-other (sibling n) m h = refl
upward-other (local_account a) m h = refl
upward-other elsewhere m h = refl

pub sideways-other :
    (l : Location) (m : ℕ) → ((n : ℕ) → l ≢ sibling n) → sideways l m ≡ err not_applicable
sideways-other parent m h = refl
sideways-other (sibling n) m h = absurd (h n refl)
sideways-other (local_account a) m h = refl
sideways-other elsewhere m h = refl

abbrev pub senders : Senders Location ℕ (ℕ × ℕ) (Unit {0}) ℕ
senders = record {
  place = λ l. l;
  parent_as_ump = upward;
  parent_as_ump-other = upward-other;
  xcmp_queue = sideways;
  xcmp_queue-other = sideways-other;
  any_sender = first_taker;
  any_sender-nil = λ l m. refl;
  any_sender-cons = λ s ss l m. refl;
  set_topic = suc;
  with_unique_topic = λ s l m. s l (suc m);
  with_unique_topic-sender = λ s l m t. (λ h. h, λ h. h);
}
