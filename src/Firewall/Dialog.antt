-- ===== src/Firewall/Dialog.antt =====
-- What it takes for the user's answer to be yes.
use keysas.Base.{
  ℕ, ◌≡◌, ◌↔◌, refl, inl, inr, ap, true, false, Bool-cases, Option, none, some, List, [], ◌∷◌, ◌++◌,
  codes, All, text_eq, text_eq_refl, ◌∙◌, text_eq_iff, ◌==◌, ==_iff, ok, arith,
}
use keysas.Firewall.Gui.{
  Signal, action_invoked, notification_closed, unreadable, first_answer, request_auth_dialog,
  Question, ask,
}

-- A signal that is not about the notification.
abbrev IsOther : ℕ → Signal → Type 0
IsOther id (action_invoked i key) = (i == id) ≡ false
IsOther id (notification_closed i) = (i == id) ≡ false
IsOther id unreadable = Unit

-- The first signal about the notification says that the user allows.
abbrev pub Allows : ℕ → List Signal → Type 0
Allows id signals =
    (before : List Signal) × (after : List Signal) × (signals
      ≡ before ++ action_invoked id (codes "allow") ∷ after)
    × All (IsOther id) before

Allows-later :
    (id : ℕ) (s : Signal) (signals : List Signal)
    → IsOther id s
    → Allows id signals
    → Allows id (s ∷ signals)
Allows-later id s signals o (before, after, e, others) =
    (s ∷ before, after, ap (λ l. s ∷ l) e, (o, others))

Allows-of_answer :
    (id : ℕ) (signals : List Signal) → first_answer id signals ≡ true → Allows id signals
unfolding first_answer
Allows-of_answer id [] h = absurd (ground arith)
Allows-of_answer id (action_invoked i key ∷ signals) h = elim (Bool-cases (i == id)) [
  | inl same ↦
      let e : i ≡ id = (==_iff i id).0 same in
      let k : text_eq key (codes "allow") ≡ true = ground arith in
      ([], signals, cc (e, (text_eq_iff key (codes "allow")).0 k), tt)
  | inr other ↦
      Allows-later id (action_invoked i key) signals other
        (Allows-of_answer id signals (ground arith))
]
Allows-of_answer id (notification_closed i ∷ signals) h = elim (Bool-cases (i == id)) [
  | inl same ↦ absurd (ground arith)
  | inr other ↦
      Allows-later id (notification_closed i) signals other
        (Allows-of_answer id signals (ground arith))
]
Allows-of_answer id (unreadable ∷ signals) h =
    Allows-later id unreadable signals tt (Allows-of_answer id signals h)

answer-append :
    (id : ℕ) (before after : List Signal)
    → All (IsOther id) before
    → first_answer id (before ++ action_invoked id (codes "allow") ∷ after) ≡ true
unfolding first_answer
answer-append id [] after others = rw (text_eq_refl (codes "allow"), (==_iff id id).1 refl) refl
answer-append id (action_invoked i key ∷ before) after (o, others) =
    rw o (answer-append id before after others)
answer-append id (notification_closed i ∷ before) after (o, others) =
    rw o (answer-append id before after others)
answer-append id (unreadable ∷ before) after (o, others) = answer-append id before after others

dialog_iff :
    (n : Option ℕ) (signals : List Signal)
    → (request_auth_dialog n signals ≡ ok true) ↔ ((id : ℕ) × (n ≡ some id) × Allows id signals)
unfolding request_auth_dialog
dialog_iff none signals = ((λ h. absurd (cc h)), (λ (id, e, a). absurd (cc e)))
dialog_iff (some i) signals = (
  (λ h. (i, refl, Allows-of_answer i signals (cc h))),
  (λ (id, e, (before, after, same, others)).
      let known : i ≡ id = cc e in
      ap (λ n. ok (first_answer n signals)) known
      ∙ ap ok (ap (first_answer id) same ∙ answer-append id before after others)),
)

-- The answer to a question is yes just when the notification could be shown and the first signal about it,
-- within the time, is that the user chose to allow. A closed notification, silence and every failure
-- are a no or an error.
pub ask_iff :
    (notify : Question → Option ℕ) (signals : List Signal) (q : Question)
    → (ask notify signals q ≡ ok true) ↔ ((id : ℕ) × (notify q ≡ some id) × Allows id signals)
unfolding ask
ask_iff notify signals q = dialog_iff (notify q) signals
