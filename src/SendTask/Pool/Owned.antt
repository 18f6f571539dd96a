-- ===== src/SendTask/Pool/Owned.antt =====
-- A packet has one owner, so what is written is what was pushed.
use mysql8_audit_proxy.Base.{
  ℕ, ◌+◌, ◌≤◌, ◌≡◌, Bool, true, false, refl, sym, ap, ◌∙◌, Bool-cases, inl, inr, ◌==◌,
  if◌then◌else◌, List, [], ◌∷◌, ◌++◌, map, append_assoc, arith,
}
use mysql8_audit_proxy.SendPacket.{SendPacket}
use mysql8_audit_proxy.SendTask.Pool.{
  Objects, set_contents, Move, make, get, forget, fill, push, put, abandon, receive, write, Moves,
  stay, step, no_packets,
}

abbrev pub count : ℕ → List ℕ → ℕ
count i [] = 0
count i (j ∷ js) = (if j == i then 1 else 0) + count i js

count-append : (i : ℕ) (is js : List ℕ) → count i (is ++ js) ≡ count i is + count i js
count-append i [] js = omega arith
count-append i (j ∷ is) js = omega (arith, count-append i is js)

-- How many pointers there are to a packet.
abbrev pub owners : ℕ → Objects → ℕ
owners i s = count i s.pool + count i s.held + count i s.queue + count i s.writing

-- What the packets of the channel contain, with the one that is being written.
abbrev pub waiting : Objects → List SendPacket
waiting s = map s.contents (s.writing ++ s.queue)

-- The packets that were given to the writer, and those of them that were written.
abbrev pub taken : List (SendPacket × Bool) → List SendPacket
taken [] = []
taken ((p, succeeds) ∷ ps) = p ∷ taken ps

abbrev pub written : List (SendPacket × Bool) → List SendPacket
written [] = []
written ((p, succeeds) ∷ ps) = if succeeds then p ∷ written ps else written ps

-- The packets of which the write failed.
abbrev pub lost : List (SendPacket × Bool) → List SendPacket
lost [] = []
lost ((p, succeeds) ∷ ps) = if succeeds then lost ps else p ∷ lost ps

-- A list that is made of two others, each in its order.
pub data Merged : List SendPacket → List SendPacket → List SendPacket → Type 0 where
  neither : Merged [] [] []
  first :
      (p : SendPacket) {ps qs rs : List SendPacket} → Merged ps qs rs → Merged (p ∷ ps) qs (p ∷ rs)
  second :
      (p : SendPacket) {ps qs rs : List SendPacket} → Merged ps qs rs → Merged ps (p ∷ qs) (p ∷ rs)

taken-Merged : (ps : List (SendPacket × Bool)) → Merged (written ps) (lost ps) (taken ps)
taken-Merged [] = neither
taken-Merged ((p, true) ∷ ps) = first p (taken-Merged ps)
taken-Merged ((p, false) ∷ ps) = second p (taken-Merged ps)

taken-append :
    (ps : List (SendPacket × Bool)) (p : SendPacket) (succeeds : Bool)
    → taken (ps ++ ((p, succeeds) ∷ [])) ≡ taken ps ++ (p ∷ [])
taken-append [] p succeeds = refl
taken-append ((q, b) ∷ ps) p succeeds = ap (◌∷◌ q) (taken-append ps p succeeds)

pub record IsOwned (s : Objects) : Type 0 where
  pub one_owner : (i : ℕ) → owners i s ≤ 1
  pub unmade : (i : ℕ) → s.next ≤ i → owners i s ≡ 0
  pub delivered : s.pushed ≡ taken s.given ++ waiting s

-- The packets that are not `i` are not changed.
map-set_contents :
    (i : ℕ) (p : SendPacket) (contents : ℕ → SendPacket) (is : List ℕ)
    → count i is ≡ 0
    → map (set_contents i p contents) is ≡ map contents is
map-set_contents i p contents [] h = refl
map-set_contents i p contents (j ∷ is) h = elim (Bool-cases (j == i)) [
  | inl q ↦ absurd (omega (arith, rw q at h))
  | inr q ↦
      rw q (ap (◌∷◌ (contents j)) (map-set_contents i p contents is (omega (arith, rw q at h))))
]

map-snoc :
    (f : ℕ → SendPacket) (is : List ℕ) (i : ℕ) → map f (is ++ (i ∷ [])) ≡ map f is ++ (f i ∷ [])
map-snoc f [] i = refl
map-snoc f (j ∷ is) i = ap (◌∷◌ (f j)) (map-snoc f is i)

count_self : (i : ℕ) (is : List ℕ) → count i (i ∷ is) ≡ 1 + count i is
count_self i is = ground arith

count-split :
    (j : ℕ) (is before : List ℕ) (i : ℕ) (after : List ℕ)
    → is ≡ before ++ (i ∷ after)
    → count j is ≡ count j (i ∷ (before ++ after))
count-split j is before i after e =
    omega (arith, ap (count j) e, count-append j before (i ∷ after), count-append j before after)

kept :
    (s t : Objects)
    → IsOwned s
    → ((j : ℕ) → owners j t ≤ owners j s)
    → t.next ≡ s.next
    → t.pushed ≡ taken t.given ++ waiting t
    → IsOwned t
kept s t h fewer same d = record {
  one_owner = λ j. omega (arith, h.one_owner j, fewer j);
  unmade = λ j le. omega (arith, fewer j, same, h.unmade j (omega (arith, same)));
  delivered = d;
}

-- A packet that is not in the channel may be changed.
waiting-set_contents :
    (s : Objects) (i : ℕ) (p : SendPacket)
    → count i s.queue + count i s.writing ≡ 0
    → map (set_contents i p s.contents) (s.writing ++ s.queue) ≡ waiting s
waiting-set_contents s i p h =
    map-set_contents i p s.contents (s.writing ++ s.queue)
      (omega (arith, count-append i s.writing s.queue))

make-IsOwned :
    (s : Objects) (p : SendPacket)
    → IsOwned s
    → IsOwned (record s {
      contents = set_contents s.next p s.contents;
      next = s.next + 1;
      held = s.next ∷ s.held;
    })
make-IsOwned s p h =
    let new = h.unmade s.next (omega arith) in
    record {
      one_owner = λ j. elim (Bool-cases (s.next == j)) [
        | inl q ↦ ground (arith, h.unmade j)
        | inr q ↦ rw q (omega (arith, h.one_owner j))
      ];
      unmade = λ j le. elim (Bool-cases (s.next == j)) [
        | inl q ↦ absurd (ground arith)
        | inr q ↦ rw q (omega (arith, h.unmade j (omega arith)))
      ];
      delivered =
          h.delivered
          ∙ ap (λ ps. taken s.given ++ ps)
              (sym (waiting-set_contents s s.next p (omega (arith, new))));
    }

Move-IsOwned : {s t : Objects} → Move s t → IsOwned s → IsOwned t
Move-IsOwned (make s p) h = make-IsOwned s p h
Move-IsOwned (get s before i after has) h =
    kept s _ h (λ j. omega (arith, count-split j s.pool before i after has)) refl h.delivered
Move-IsOwned (forget s before i after has) h =
    kept s _ h (λ j. omega (arith, count-split j s.pool before i after has)) refl h.delivered
Move-IsOwned (fill s before i after p has) h =
    let mine : count i s.queue + count i s.writing ≡ 0 = omega (
      arith,
      h.one_owner i,
      count-split i s.held before i after has,
      count_self i (before ++ after),
    ) in
    kept s _ h (λ j. omega arith) refl
      (h.delivered ∙ ap (λ ps. taken s.given ++ ps) (sym (waiting-set_contents s i p mine)))
Move-IsOwned (push s before i after has) h =
    kept s _ h
      (λ j. omega (arith, count-split j s.held before i after has, count-append j s.queue (i ∷ [])))
      refl
      (ap (λ ps. ps ++ (s.contents i ∷ [])) h.delivered
        ∙ append_assoc (taken s.given) (waiting s) (s.contents i ∷ [])
        ∙ ap (λ ps. taken s.given ++ ps)
            (sym (map-snoc s.contents (s.writing ++ s.queue) i)
              ∙ ap (map s.contents) (append_assoc s.writing s.queue (i ∷ []))))
Move-IsOwned (put s before i after has) h =
    kept s _ h (λ j. omega (arith, count-split j s.held before i after has)) refl h.delivered
Move-IsOwned (abandon s before i after has) h =
    kept s _ h (λ j. omega (arith, count-split j s.held before i after has)) refl h.delivered
Move-IsOwned (receive s i rest has free) h =
    kept s _ h (λ j. omega (arith, ap (count j) has, ap (count j) free)) refl
      (h.delivered
        ∙ ap (λ is. taken s.given ++ map s.contents (is ++ s.queue)) free
        ∙ ap (λ is. taken s.given ++ map s.contents is) has)
Move-IsOwned (write s i succeeds has) h =
    kept s _ h (λ j. omega (arith, ap (count j) has)) refl
      (h.delivered
        ∙ ap (λ is. taken s.given ++ map s.contents (is ++ s.queue)) has
        ∙ sym (append_assoc (taken s.given) (s.contents i ∷ []) (map s.contents s.queue))
        ∙ ap (λ ps. ps ++ map s.contents s.queue)
            (sym (taken-append s.given (s.contents i) succeeds)))

no_packets-IsOwned : (contents : ℕ → SendPacket) → IsOwned (no_packets contents)
no_packets-IsOwned contents = record {
  one_owner = λ i. omega arith;
  unmade = λ i le. refl;
  delivered = refl;
}

Moves-IsOwned : {s t : Objects} → Moves s t → IsOwned s → IsOwned t
Moves-IsOwned (stay s) h = h
Moves-IsOwned (step e es) h = Moves-IsOwned es (Move-IsOwned e h)

-- However the goroutines take turns with the packets of the pool, from the start on there is never
-- more than one pointer to a packet. The log's writer has been given the packets that were pushed,
-- in their order and each as it was when it was pushed, but for those that are still in the channel
-- or about to be written; and what it was given is what was written, in its order, with the packets
-- of which the write failed in between.
pub run-IsOwned :
    {t : Objects} (contents : ℕ → SendPacket)
    → Moves (no_packets contents) t
    → IsOwned t × Merged (written t.given) (lost t.given) (taken t.given)
run-IsOwned {t} contents es = (Moves-IsOwned es (no_packets-IsOwned contents), taken-Merged t.given)
