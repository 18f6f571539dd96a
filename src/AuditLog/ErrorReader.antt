-- ===== src/AuditLog/ErrorReader.antt =====
-- pkg/mysqlproxy/log/errorreader.go: a reader that notes the last error of the reader behind it.
use mysql8_audit_proxy.Base.{ℕ, ◌≡◌, refl, ap, Option, none, some, List, [], ◌∷◌, Text}

pub record ErrorReader (E R : Type 0) : Type 0 where
  pub reader : R
  pub err : Option E

abbrev pub new_error_reader : {E R : Type 0} → R → ErrorReader E R
new_error_reader r = record { reader = r; err = none }

-- The error to note: the new one, if there is one.
abbrev pub noted : {E : Type 0} → Option E → Option E → Option E
noted old none = old
noted old (some e) = some e

-- `read` is the `Read` of the reader behind, at a slice of a length.
module _ {E R : Type 0} (read : ℕ → R → (Text × Option E) × R) where
  unfoldable pub read_noting : ℕ → ErrorReader E R → (Text × Option E) × ErrorReader E R
  read_noting n e =
      let ((b, error), r) = read n e.reader in
      ((b, error), record { reader = r; err = noted e.err error })

  -- What reads at slices of these lengths return, one after the other.
  abbrev pub reads_noting : List ℕ → ErrorReader E R → List (Text × Option E) × ErrorReader E R
  unfolding read_noting
  reads_noting [] e = ([], e)
  reads_noting (n ∷ ns) e =
      let (result, e') = read_noting n e in
      let (results, e'') = reads_noting ns e' in (result ∷ results, e'')

  abbrev pub reads : List ℕ → R → List (Text × Option E) × R
  reads [] r = ([], r)
  reads (n ∷ ns) r =
      let (result, r') = read n r in let (results, r'') = reads ns r' in (result ∷ results, r'')

  abbrev pub last_error : Option E → List (Text × Option E) → Option E
  last_error old [] = old
  last_error old ((b, error) ∷ results) = last_error (noted old error) results

  -- Any reads return what the reader behind returns, and the error that is noted then is the last one
  -- of theirs.
  pub reads_noting-reads :
      (ns : List ℕ) (r : R) (old : Option E)
      → reads_noting ns (record { reader = r; err = old })
        ≡ ((reads ns r).0, record { reader = (reads ns r).1; err = last_error old (reads ns r).0 })
  unfolding read_noting
  reads_noting-reads [] r old = refl
  reads_noting-reads (n ∷ ns) r old =
      let ((b, error), r') = read n r in
      ap (λ q. ((b, error) ∷ q.0, q.1)) (reads_noting-reads ns r' (noted old error))
