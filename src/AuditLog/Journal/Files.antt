-- ===== src/AuditLog/Journal/Files.antt =====
-- Disks that keep the files of a journal.
use mysql8_audit_proxy.Base.{
  concat, ◌≡◌, refl, sym, ap, ◌∙◌, false, Bool-cases, inl, inr, Option, none, some, List, [], ◌∷◌,
  ◌++◌, Text, text_eq, text_eq_refl, if◌then◌else◌, append-nil, append_assoc,
}
use mysql8_audit_proxy.SendPacket.{SendPacket}
use mysql8_audit_proxy.SendPacket.Encoding.{encoding}
use mysql8_audit_proxy.LogDecoder.Records.{records}
use mysql8_audit_proxy.AuditLog.{fmt_version, Disk, set_file, members_of}
use mysql8_audit_proxy.AuditLog.Journal.{Journal, packets_of, put, text_in, log_of, Keeps}

pub concat-append : (ms : List Text) (t : Text) → concat (ms ++ (t ∷ [])) ≡ concat ms ++ t
concat-append [] t = append-nil t
concat-append (m ∷ ms) t =
    ap (λ u. m ++ u) (concat-append ms t) ∙ sym (append_assoc m (concat ms) t)

records-append : (ps qs : List SendPacket) → records (ps ++ qs) ≡ records ps ++ records qs
records-append [] qs = refl
records-append (p ∷ ps) qs =
    ap (λ u. encoding p ++ u) (records-append ps qs)
    ∙ sym (append_assoc (encoding p) (records ps) (records qs))

abbrev pub settled : Text → Disk → Text → Disk
settled path disk body = set_file path (members_of (disk path) ++ (body ∷ [])) disk

abbrev pub some_of : Option Text → Text
some_of none = []
some_of (some t) = t

-- What the log of a file is once packets are put into it.
pub log_of-put :
    (o : Option (List SendPacket)) (t : Text) (ps : List SendPacket)
    → some t ≡ log_of o
    → some (t ++ records ps) ≡ log_of (some (packets_of o ++ ps))
log_of-put none t ps h = cc
log_of-put (some qs) t ps h =
    ap (λ u. some (u ++ records ps)) (ap some_of h)
    ∙ ap some (append_assoc fmt_version (records qs) (records ps))
    ∙ ap (λ u. some (fmt_version ++ u)) (sym (records-append qs ps))

-- Two disks that agree on all files but one, and the journals beside them.
pub Keeps-put :
    (path : Text) (ps : List SendPacket) (j : Journal) (disk disk' : Disk) (members : List Text)
    → Keeps disk j.files
    → ((p : Text) → text_eq path p ≡ false → disk' p ≡ disk p)
    → text_in (some members) ≡ log_of (some (packets_of (j.files path) ++ ps))
    → Keeps (set_file path members disk') (put path ps j).files
Keeps-put path ps j disk disk' members h others same p = elim (Bool-cases (text_eq path p)) [
  | inl q ↦ rw q same
  | inr q ↦ rw q (ap text_in (others p q) ∙ h p)
]

settled_same :
    (path : Text) (disk : Disk) (body : Text) (j : Journal)
    → Keeps (settled path disk body) j.files
    → some (concat (members_of (disk path)) ++ body) ≡ log_of (j.files path)
settled_same path disk body j h =
    ap some (sym (concat-append (members_of (disk path)) body))
    ∙ sym (
        ap (λ b. text_in (if b then some (members_of (disk path) ++ (body ∷ [])) else disk path))
          (text_eq_refl path))
    ∙ h path

pub Keeps-packets :
    (path : Text) (disk : Disk) (body : Text) (j : Journal) (ps : List SendPacket)
    → Keeps (settled path disk body) j.files
    → Keeps (settled path disk (body ++ records ps)) (put path ps j).files
Keeps-packets path disk body j ps h =
    Keeps-put path ps j (settled path disk body) disk _ h
      (λ p q. sym (ap (λ b. if b then some (members_of (disk path) ++ (body ∷ [])) else disk p) q))
      (ap some (concat-append (members_of (disk path)) (body ++ records ps))
        ∙ ap some (sym (append_assoc (concat (members_of (disk path))) body (records ps)))
        ∙ log_of-put (j.files path) _ ps (settled_same path disk body j h))

pub log_of-none : (o : Option (List SendPacket)) → none ≡ log_of o → o ≡ none
log_of-none none h = refl
log_of-none (some ps) h = cc
