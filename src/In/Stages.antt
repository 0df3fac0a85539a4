-- ===== src/In/Stages.antt =====
-- The sending of one batch by keysas-in: its message, and what is gone from the incoming directory.
use keysas.Base.{
  ℕ, ◌≡◌, ◌⊎◌, refl, sym, ap, ◌∙◌, inl, inr, Bool, true, false, ◌&&◌, Option, none, some,
  Bool-cases, List, [], ◌∷◌, ◌++◌, Text, Bytes, text_eq, mem_text, file_name, text_eq_iff, arith,
}
use mathlib.Core.Path.{subst}
use keysas.Progress.{start_file, update_step, hashing, checking_size, verifying_signature}
use keysas.In.{
  FileMetadata, unlink, report_of, is_corrupted, Probe, Message, empty, carried, In, note_call,
  Taken, serialize, remove_report, start, hash_file, open_file, prepare, message, finish, deliver,
  send_batch,
}

pub others_stay :
    (x f : Text)
    → text_eq x f ≡ false
    → (dir : List Text) → mem_text x dir ≡ true
    → mem_text x (unlink f dir) ≡ true
unfolding unlink mem_text
others_stay x f n [] e = e
others_stay x f n (y ∷ dir) e =
    ground (arith, text_eq_iff x y, text_eq_iff y f, text_eq_iff x f, others_stay x f n dir)

mem-unlink :
    (x f : Text) (dir : List Text)
    → mem_text x dir ≡ true
    → (mem_text x (unlink f dir) ≡ true) ⊎ (x ≡ f)
mem-unlink x f dir e = elim (Bool-cases (text_eq x f)) [
  | inl t ↦ inr ((text_eq_iff x f).0 t)
  | inr n ↦ inl (others_stay x f n dir e)
]

module _ (encode : FileMetadata → Option Bytes) where
  -- What is known of the data that is taken from a file.
  abbrev IsTaken : Probe → Text → Taken → Type 0
  IsTaken p f none = Unit
  IsTaken p f (some (m, data_bytes, fd)) =
      (file_name f ≡ some m.filename)
      × (p.digest ≡ some m.digest)
      × (p.opened ≡ some fd)
      × (encode m ≡ some data_bytes)

  -- What a stage leaves: the messages, and the directory, except perhaps the report on the file.
  abbrev pub IsStage : Text → In → In → Type 0
  IsStage f s s' =
      (s'.messages ≡ s.messages) × ((s'.dir ≡ s.dir) ⊎ (s'.dir ≡ unlink (report_of f) s.dir))

  remove_report-IsStage :
      (f : Text) (removes : Bool) (s : In) → IsStage f s (remove_report encode f removes s)
  unfolding remove_report
  remove_report-IsStage f true s = (refl, inr refl)
  remove_report-IsStage f false s = (refl, inl refl)

  hash_file-IsStage :
      (p : Probe) (f filename : Text) (fd : ℕ) (o : Option Text) (s : In)
      → IsStage f s (hash_file encode p f filename fd o s).1
  unfolding hash_file
  hash_file-IsStage p f filename fd none s = (refl, inl refl)
  hash_file-IsStage p f filename fd (some digest) s =
      remove_report-IsStage f (is_corrupted s.dir f && p.removes)
        (note_call (update_step p.verified verifying_signature) s)

  open_file-IsStage :
      (p : Probe) (f filename : Text) (o : Option ℕ) (s : In)
      → IsStage f s (open_file encode p f filename o s).1
  unfolding open_file
  open_file-IsStage p f filename none s = (refl, inl refl)
  open_file-IsStage p f filename (some fd) s =
      hash_file-IsStage p f filename fd p.digest (note_call (update_step p.sized checking_size) s)

  start-IsStage :
      (p : Probe) (f : Text) (n : Option Text) (s : In) → IsStage f s (start encode p f n s).1
  unfolding start
  start-IsStage p f none s = (refl, inl refl)
  start-IsStage p f (some filename) s =
      open_file-IsStage p f filename p.opened
        (note_call (update_step p.hashed hashing) (note_call (start_file p.started filename) s))

  prepare-IsStage : (p : Probe) (f : Text) (s : In) → IsStage f s (prepare encode p f s).1
  unfolding prepare
  prepare-IsStage p f s = start-IsStage p f (file_name f) s

  serialize-IsTaken :
      (p : Probe) (f : Text) (m : FileMetadata) (fd : ℕ) (o : Option Bytes)
      → file_name f ≡ some m.filename
      → p.digest ≡ some m.digest
      → p.opened ≡ some fd
      → encode m ≡ o
      → IsTaken p f (serialize encode m fd o)
  unfolding serialize
  serialize-IsTaken p f m fd none n d o e = tt
  serialize-IsTaken p f m fd (some data_bytes) n d o e = (n, d, o, e)

  hash_file-IsTaken :
      (p : Probe) (f filename : Text) (fd : ℕ) (d : Option Text) (s : In)
      → file_name f ≡ some filename
      → p.opened ≡ some fd
      → p.digest ≡ d
      → IsTaken p f (hash_file encode p f filename fd d s).0
  unfolding hash_file
  hash_file-IsTaken p f filename fd none s n o e = tt
  hash_file-IsTaken p f filename fd (some digest) s n o e =
      serialize-IsTaken p f _ fd (encode _) n e o refl

  open_file-IsTaken :
      (p : Probe) (f filename : Text) (o : Option ℕ) (s : In)
      → file_name f ≡ some filename
      → p.opened ≡ o
      → IsTaken p f (open_file encode p f filename o s).0
  unfolding open_file
  open_file-IsTaken p f filename none s n e = tt
  open_file-IsTaken p f filename (some fd) s n e =
      hash_file-IsTaken p f filename fd p.digest _ n e refl

  start-IsTaken :
      (p : Probe) (f : Text) (n : Option Text) (s : In)
      → file_name f ≡ n
      → IsTaken p f (start encode p f n s).0
  unfolding start
  start-IsTaken p f none s e = tt
  start-IsTaken p f (some filename) s e = open_file-IsTaken p f filename p.opened _ e refl

  prepare-IsTaken : (p : Probe) (f : Text) (s : In) → IsTaken p f (prepare encode p f s).0
  unfolding prepare
  prepare-IsTaken p f s = start-IsTaken p f (file_name f) s refl

  -- The message is about the file: its name, its digest, its descriptor, and the encoding of them.
  abbrev pub IsAbout : (Text → Probe) → Text → Message → Type 0
  IsAbout probe f empty = ⊥
  IsAbout probe f (carried m data_bytes fd) =
      (file_name f ≡ some m.filename)
      × ((probe f).digest ≡ some m.digest)
      × ((probe f).opened ≡ some fd)
      × (encode m ≡ some data_bytes)

  module _ (probe : Text → Probe) where
    -- A sent batch: one more message, empty or about the file; the file goes only where it is about it.
    abbrev pub IsBatch : Text → In → In → Type 0
    IsBatch f s s' =
        (msg : Message) × (s'.messages ≡ s.messages ++ msg ∷ [])
        × ((msg ≡ empty) ⊎ IsAbout probe f msg)
        × ((x : Text)
            → mem_text x s.dir ≡ true
            → (mem_text x s'.dir ≡ true) ⊎ ((x ≡ report_of f) ⊎ ((x ≡ f) × IsAbout probe f msg)))

    pub stage_kept :
        (f x : Text) (s s' : In)
        → IsStage f s s'
        → mem_text x s.dir ≡ true
        → (mem_text x s'.dir ≡ true) ⊎ (x ≡ report_of f)
    stage_kept f x s s' (_, inl e) h = inl (ap (mem_text x) e ∙ h)
    stage_kept f x s s' (_, inr e) h = elim (mem-unlink x (report_of f) s.dir h) [
      | inl k ↦ inl (ap (mem_text x) e ∙ k)
      | inr k ↦ inr k
    ]

    message-IsAbout :
        (f : Text) (t : Taken)
        → IsTaken (probe f) f t
        → (message encode t ≡ empty) ⊎ IsAbout probe f (message encode t)
    unfolding message
    message-IsAbout f none h = inl refl
    message-IsAbout f (some (m, data_bytes, fd)) h = inr h

    finish_kept :
        (f x : Text) (t : Taken) (s : In)
        → IsTaken (probe f) f t
        → mem_text x s.dir ≡ true
        → (mem_text x (finish encode (probe f) f t s).dir ≡ true)
          ⊎ ((x ≡ f) × IsAbout probe f (message encode t))
    unfolding finish message
    finish_kept f x none s h e = inl e
    finish_kept f x (some t) s h e = elim (Bool-cases (probe f).unlinks) [
      | inl u ↦ elim (mem-unlink x f s.dir e) [
        | inl k ↦ inl (rw (finish, u) k)
        | inr k ↦ inr (k, h)
      ]
      | inr u ↦ inl (rw (finish, u) e)
    ]

    finish-messages :
        (f : Text) (t : Taken) (s : In) → (finish encode (probe f) f t s).messages ≡ s.messages
    unfolding finish
    finish-messages f none s = refl
    finish-messages f (some t) s = ground arith

    -- What is delivered, after the stages before it.
    deliver-IsBatch :
        (f : Text) (t : Taken) (sends : Bool) (s s' : In)
        → IsTaken (probe f) f t
        → IsStage f s s'
        → (deliver encode (probe f) f t sends s').0 ≡ true
        → IsBatch f s (deliver encode (probe f) f t sends s').1
    unfolding deliver
    deliver-IsBatch f t false s s' h g ok = absurd (ground arith)
    deliver-IsBatch f t true s s' h g ok =
        let msg = message encode t in
        let s2 : In = record s' { messages = s'.messages ++ msg ∷ [] } in
        (
          msg,
          finish-messages f t s2 ∙ ap (λ ms. ms ++ msg ∷ []) g.0,
          message-IsAbout f t h,
          (λ x e. elim (stage_kept f x s s' g e) [
            | inr r ↦ inr (inl r)
            | inl k ↦ elim (finish_kept f x t s2 h k) [ inl k' ↦ inl k' | inr r ↦ inr (inr r) ]
          ]),
        )

    -- A batch that could not be sent: no message, and no file but perhaps the report gone.
    deliver-fails :
        (f : Text) (t : Taken) (sends : Bool) (s : In)
        → (deliver encode (probe f) f t sends s).0 ≡ false
        → (deliver encode (probe f) f t sends s).1 ≡ s
    unfolding deliver
    deliver-fails f t true s ok = absurd (ground arith)
    deliver-fails f t false s ok = refl

    pub send_batch-IsBatch :
        (f : Text) (s : In)
        → (send_batch encode (probe f) f s).0 ≡ true
        → IsBatch f s (send_batch encode (probe f) f s).1
    unfolding send_batch
    send_batch-IsBatch f s ok =
        deliver-IsBatch f _ (probe f).sends s _ (prepare-IsTaken (probe f) f s)
          (prepare-IsStage (probe f) f s) ok

    pub send_batch-IsStage :
        (f : Text) (s : In)
        → (send_batch encode (probe f) f s).0 ≡ false
        → IsStage f s (send_batch encode (probe f) f s).1
    unfolding send_batch
    send_batch-IsStage f s ok =
        subst (IsStage f s) (sym (deliver-fails f _ (probe f).sends _ ok))
          (prepare-IsStage (probe f) f s)
