-- ===== src/In/Send.antt =====
-- What keysas-in sends, and what becomes of the incoming directory.
use keysas.Base.{
  ◌≡◌, ◌⊎◌, sym, ap, ◌∙◌, inl, inr, true, not, Option, Bool-cases, List, [], ◌∷◌, ◌++◌, Text, Bytes,
  mem_text, retain, Some, All,
}
use mathlib.Core.Path.{subst}
use mathlib.Core.List.{append-nil, append_assoc}
use keysas.In.{
  FileMetadata, report_of, Probe, Message, empty, In, send_batch, send_all, send_files, is_hidden,
}
use keysas.In.Stages.{IsAbout, IsStage, IsBatch, stage_kept, send_batch-IsBatch, send_batch-IsStage}

module _ (encode : FileMetadata → Option Bytes) (probe : Text → Probe) where
  -- A message that is empty or about one of the files.
  abbrev pub IsSent : List Text → Message → Type 0
  IsSent files msg = (msg ≡ empty) ⊎ Some (λ f. IsAbout encode probe f msg) files

  -- What the loop has done: the new messages, and what is gone from the directory.
  abbrev pub IsLoop : List Text → In → In → Type 0
  IsLoop files s r =
      (more : List Message) × (r.messages ≡ s.messages ++ more)
      × All (IsSent files) more
      × ((x : Text)
          → mem_text x s.dir ≡ true
          → (mem_text x r.dir ≡ true)
            ⊎ (Some (λ f. x ≡ report_of f) files ⊎ Some (IsAbout encode probe x) more))

  All-later :
      (f : Text) (files : List Text) (ms : List Message)
      → All (IsSent files) ms
      → All (IsSent (f ∷ files)) ms
  All-later f files [] h = tt
  All-later f files (m ∷ ms) (inl e, h) = (inl e, All-later f files ms h)
  All-later f files (m ∷ ms) (inr e, h) = (inr (inr e), All-later f files ms h)

  IsSent-first :
      (f : Text) (files : List Text) (m : Message)
      → (m ≡ empty) ⊎ IsAbout encode probe f m
      → IsSent (f ∷ files) m
  IsSent-first f files m (inl e) = inl e
  IsSent-first f files m (inr e) = inr (inl e)

  IsLoop-step :
      (f : Text) (files : List Text) (s s' r : In)
      → IsBatch encode probe f s s'
      → IsLoop files s' r
      → IsLoop (f ∷ files) s r
  IsLoop-step f files s s' r (msg, sent, about, kept) (more, rest, all, kept') = (
    msg ∷ more,
    rest ∙ (ap (λ ms. ms ++ more) sent ∙ append_assoc s.messages (msg ∷ []) more),
    (IsSent-first f files msg about, All-later f files more all),
    (λ x e. elim (kept x e) [
      | inl k ↦ elim (kept' x k) [
        | inl k' ↦ inl k'
        | inr (inl reported) ↦ inr (inl (inr reported))
        | inr (inr sent') ↦ inr (inr (inr sent'))
      ]
      | inr (inl reported) ↦ inr (inl (inl reported))
      | inr (inr (same, a)) ↦ inr (inr (inl (subst (λ y. IsAbout encode probe y msg) (sym same) a)))
    ]),
  )

  IsLoop-stop :
      (f : Text) (files : List Text) (s s' : In) → IsStage encode f s s' → IsLoop (f ∷ files) s s'
  IsLoop-stop f files s s' g = (
    [],
    g.0 ∙ sym (append-nil s.messages),
    tt,
    (λ x e. elim (stage_kept encode probe f x s s' g e) [
      | inl k ↦ inl k
      | inr r ↦ inr (inl (inl r))
    ]),
  )

  send_all-IsLoop : (files : List Text) (s : In) → IsLoop files s (send_all encode probe files s).1
  unfolding send_all
  send_all-IsLoop [] s = ([], sym (append-nil s.messages), tt, λ x e. inl e)
  send_all-IsLoop (f ∷ files) s = elim (Bool-cases (send_batch encode (probe f) f s).0) [
    | inl e ↦
        rw (e, send_all)
          (IsLoop-step f files s (send_batch encode (probe f) f s).1
            (send_all encode probe files (send_batch encode (probe f) f s).1).1
            (send_batch-IsBatch encode probe f s e)
            (send_all-IsLoop files (send_batch encode (probe f) f s).1))
    | inr e ↦
        rw (e, send_all)
          (IsLoop-stop f files s (send_batch encode (probe f) f s).1
            (send_batch-IsStage encode probe f s e))
  ]

  -- A round adds only messages that are empty or about one of the files whose names do not begin with a
  -- dot, with its digest, its descriptor and their encoding. A name is gone from the directory only
  -- where a message about it was added, or it is that of the report on one of those files.
  pub send_files-IsLoop :
      (files : List Text) (s : In)
      → IsLoop (retain (λ x. not (is_hidden x)) files) s (send_files encode probe files s).1
  unfolding send_files
  send_files-IsLoop files s = send_all-IsLoop (retain (λ x. not (is_hidden x)) files) s
