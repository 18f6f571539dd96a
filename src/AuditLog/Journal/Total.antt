-- ===== src/AuditLog/Journal/Total.antt =====
-- The packets of all files of the log together.
use mysql8_audit_proxy.Base.{
  ℕ, ◌+◌, ◌≡◌, refl, ap, ◌∙◌, Bool-cases, inl, inr, Option, List, [], ◌∷◌, Text, text_eq,
  text_eq→eq, if◌then◌else◌, arith,
}
use mysql8_audit_proxy.SendPacket.{SendPacket}
use mysql8_audit_proxy.Proxy.Shutdown.Queue.{weight, weight-append}
use mysql8_audit_proxy.AuditLog.Names.{Time, time2path}
use mysql8_audit_proxy.AuditLog.{Disk, LogWriter, WorkerEnd, new_audit_log_writer, log_write_worker}
use mysql8_audit_proxy.AuditLog.Journal.{
  Journal, packets_of, put, Entry, packet, rotation, journal, events_of, text_in, Keeps,
}
use mysql8_audit_proxy.AuditLog.Journal.Refinement.{log_write_worker-Journal}

-- How often a path is in a list.
abbrev pub occurs : Text → List Text → ℕ
occurs path [] = 0
occurs path (p ∷ paths) = (if text_eq path p then 1 else 0) + occurs path paths

-- The packets that are to be written.
abbrev pub packets_in : List Entry → List SendPacket
packets_in [] = []
packets_in (packet sp ∷ es) = sp ∷ packets_in es
packets_in (rotation t ∷ es) = packets_in es

-- The names that the ticks give are in the list, once.
abbrev pub AreNamed : Text → List Text → List Entry → Type 0
AreNamed file_path paths [] = Unit
AreNamed file_path paths (packet sp ∷ es) = AreNamed file_path paths es
AreNamed file_path paths (rotation t ∷ es) =
    (occurs (time2path file_path t) paths ≡ 1) × AreNamed file_path paths es

module _ (f : SendPacket → ℕ) where
  -- What the packets of these files weigh.
  abbrev pub weight_of : List Text → (Text → Option (List SendPacket)) → ℕ
  weight_of [] files = 0
  weight_of (p ∷ paths) files = weight f (packets_of (files p)) + weight_of paths files

  weight_of-put_elsewhere :
      (path : Text) (ps : List SendPacket) (j : Journal) (paths : List Text)
      → occurs path paths ≡ 0
      → weight_of paths (put path ps j).files ≡ weight_of paths j.files
  weight_of-put_elsewhere path ps j [] h = refl
  weight_of-put_elsewhere path ps j (p ∷ paths) h = elim (Bool-cases (text_eq path p)) [
    | inl q ↦ absurd (omega (arith, rw q at h))
    | inr q ↦ rw q (
        ap (λ n. weight f (packets_of (j.files p)) + n)
          (weight_of-put_elsewhere path ps j paths (omega (arith, rw q at h))))
  ]

  weight_of-put :
      (path : Text) (ps : List SendPacket) (j : Journal) (paths : List Text)
      → occurs path paths ≡ 1
      → weight_of paths (put path ps j).files ≡ weight_of paths j.files + weight f ps
  weight_of-put path ps j [] h = absurd (omega (arith, h))
  weight_of-put path ps j (p ∷ paths) h = elim (Bool-cases (text_eq path p)) [
    | inl q ↦
        let same = text_eq→eq path p q in
        rw q (
          omega (
            arith,
            weight_of-put_elsewhere path ps j paths (omega (arith, rw q at h)),
            weight-append f (packets_of (j.files path)) ps,
            ap (λ x. weight f (packets_of (j.files x))) same,
          ))
    | inr q ↦ rw q (omega (arith, weight_of-put path ps j paths (omega (arith, rw q at h))))
  ]

  journal-weight_of :
      (file_path : Text) (paths : List Text) (es : List Entry) (j : Journal)
      → AreNamed file_path paths es
      → occurs j.current paths ≡ 1
      → weight_of paths (journal file_path es j).files
        ≡ weight_of paths j.files + weight f (packets_in es)
  journal-weight_of file_path paths [] j h now = omega arith
  journal-weight_of file_path paths (packet sp ∷ es) j h now = omega (
    arith,
    journal-weight_of file_path paths es (put j.current (sp ∷ []) j) h now,
    weight_of-put j.current (sp ∷ []) j paths now,
  )
  journal-weight_of file_path paths (rotation t ∷ es) j h now = omega (
    arith,
    journal-weight_of file_path paths es (put (time2path file_path t) [] j) h.1 h.0,
    weight_of-put (time2path file_path t) [] j paths h.0,
  )

  -- Each packet that the writer receives is in exactly one of the files at the end, as often as it was
  -- received, and those that were there before are still there: together the files hold what they
  -- held before and what was received, for any weights of the packets. The log is created and its queue
  -- closed, no system call fails, the context does not end, and the list of files has each
  -- name that the ticks give, once.
  pub log_write_worker-weight_of :
      (file_path : Text) (paths : List Text) (t : Time) (es : List Entry) (disk : Disk)
      (j : Journal)
      → Keeps disk j.files
      → AreNamed file_path paths (rotation t ∷ es)
      → (files : Text → Option (List SendPacket)) × Keeps
          (log_write_worker file_path
            (events_of es)
            (new_audit_log_writer file_path t disk []).1).1.disk
          files
        × (weight_of paths files ≡ weight_of paths j.files + weight f (packets_in es))
  log_write_worker-weight_of file_path paths t es disk j keeps named =
      let first = time2path file_path t in
      let e = log_write_worker-Journal file_path t es disk j keeps in
      let last : (log_write_worker file_path (events_of es)
            (new_audit_log_writer file_path t disk []).1).1.disk
          ≡ e.disk =
        ap (λ (r : WorkerEnd × LogWriter). r.1.disk) e.ends in
      (
        (journal file_path (rotation t ∷ es) j).files,
        λ p. ap (λ (d : Disk). text_in (d p)) last ∙ e.keeps p,
        omega (
          arith,
          journal-weight_of file_path paths es (put first [] j) named.1 named.0,
          weight_of-put first [] j paths named.0,
        ),
      )
