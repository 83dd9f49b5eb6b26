-- ===== src/Domain/RxRing/Stream.antt =====
-- Reading the ring delivers the bytes of the wire, in order and once.
use native.Mathlib.Nat.{
  mod-lt, add_assoc, mod-eq_of_lt, mod-add-mod, add-mod_left, add-zero, suc-add,
}
use Prim.Native.Nat.add
use mathlib.Core.List.{append_assoc}
use mentor_pi_ros.Prelude.{
  ℕ, zero, suc, ◌+◌, ◌-◌, ◌%◌, ◌^◌, ◌≤◌, ◌<◌, ◌≡◌, refl, sym, subst, ap, ◌∙◌, true, false,
  Bool-cases, ◌==◌, ==_iff, inl, inr, ltb, ltb→lt, min, arith, some, List, [], ◌∷◌, ◌++◌, length,
  get_or, take, drop,
}
use mentor_pi_ros.Prelude.Bits.{pow-pos}
use mentor_pi_ros.Domain.RxRing.{
  RxRing, ReadPlan, prepare_read, has_valid_layout, copy_both, copy_read, commit_read,
}
use mentor_pi_ros.Domain.RxRing.Positions.{
  Tracks, prepare_read-Tracks, has_valid_layout-prepare_read, commit-prepare_read,
}

-- Bytes `from`, `from + 1`, ... of the wire, `count` of them.
abbrev pub window : (ℕ → ℕ) → ℕ → ℕ → List ℕ
window wire from zero = []
window wire from (suc count) = wire from ∷ window wire (from + 1) count

-- What the DMA leaves in memory: of the `received` bytes, each of the last `size` stands at its
-- number modulo `size`.
pub record Holds (ring : List ℕ) (size : ℕ) (wire : ℕ → ℕ) (received : ℕ) : Type 0 where
  pub room : length ring ≡ size
  pub bytes : (i : ℕ) → i < received → received ≤ i + size → get_or ring (i % size) 0 ≡ wire i

window-add :
    (wire : ℕ → ℕ) (from m n : ℕ)
    → window wire from (m + n) ≡ window wire from m ++ window wire (from + m) n
window-add wire from zero n = rw (add-zero, add.zero)
window-add wire from (suc m) n =
    rw (suc-add, shift) (ap (λ xs. wire from ∷ xs) (window-add wire (from + 1) m n))
  where
    shift : from + suc m ≡ from + 1 + m
    shift = omega arith

take-drop :
    (xs : List ℕ) (n at : ℕ)
    → at < length xs
    → take (suc n) (drop at xs) ≡ get_or xs at 0 ∷ take n (drop (suc at) xs)
take-drop [] n at h = absurd (omega arith)
take-drop (x ∷ xs) n zero h = refl
take-drop (x ∷ xs) n (suc at) h = take-drop xs n at (omega arith)

-- A run of memory that agrees with the wire is a window of it.
take-drop-window :
    (xs : List ℕ) (wire : ℕ → ℕ) (n at from : ℕ)
    → at + n ≤ length xs
    → ((i : ℕ) → i < n → get_or xs (at + i) 0 ≡ wire (from + i))
    → take n (drop at xs) ≡ window wire from n
take-drop-window xs wire zero at from h same = refl
take-drop-window xs wire (suc n) at from h same = rw (
  take-drop xs n at (omega arith),
  first,
  take-drop-window xs wire n (suc at) (from + 1) (omega arith) rest,
)
  where
    first : get_or xs at 0 ≡ wire from
    first = rw (add-zero, add-zero) at (same 0 (omega arith))

    rest : (i : ℕ) → i < n → get_or xs (suc at + i) 0 ≡ wire (from + 1 + i)
    rest i hi = rw (next_at, next_from) (same (suc i) (omega arith))
      where
        next_at : suc at + i ≡ at + suc i
        next_at = omega arith

        next_from : from + 1 + i ≡ from + suc i
        next_from = omega arith

length-window : (wire : ℕ → ℕ) (from n : ℕ) → length (window wire from n) ≡ n
length-window wire from zero = refl
length-window wire from (suc n) = ap suc (length-window wire (from + 1) n)

wrap-mod : (consumed size i : ℕ) → i < size → (consumed + (size - consumed % size) + i) % size ≡ i
wrap-mod consumed size i h =
    ap (λ t. t % size) (add_assoc consumed (size - consumed % size) i)
    ∙ sym (mod-add-mod consumed size (size - consumed % size + i))
    ∙ ap (λ t. t % size) back
    ∙ add-mod_left size i
    ∙ mod-eq_of_lt h
  where
    back : consumed % size + (size - consumed % size + i) ≡ size + i
    back = omega (arith, mod-lt consumed {m = size} (omega arith))

module _ (ring : List ℕ) (wire : ℕ → ℕ) (size received consumed : ℕ)
    (held : Holds ring size wire received) (fits : received ≤ consumed + size)
    (positive : 0 < size) where
  -- The bytes up to the end of the buffer.
  first_run :
      (n : ℕ)
      → consumed + n ≤ received
      → consumed % size + n ≤ size
      → take n (drop (consumed % size) ring) ≡ window wire consumed n
  first_run n h room =
      take-drop-window ring wire n (consumed % size) consumed (omega (arith, held.room)) agree
    where
      agree : (i : ℕ) → i < n → get_or ring (consumed % size + i) 0 ≡ wire (consumed + i)
      agree i hi =
          subst (λ t. get_or ring t 0 ≡ wire (consumed + i))
            (sym (mod-add-mod consumed size i) ∙ mod-eq_of_lt (omega arith))
            (held.bytes (consumed + i) (omega arith) (omega arith))

  -- The bytes that wrapped to the start of the buffer.
  second_run :
      (n : ℕ)
      → consumed + (size - consumed % size) + n ≤ received
      → take n ring ≡ window wire (consumed + (size - consumed % size)) n
  second_run n h =
      take-drop-window ring wire n 0 wrapped (omega (arith, held.room, mod-lt consumed positive))
        agree
    where
      wrapped : ℕ
      wrapped = consumed + (size - consumed % size)

      agree : (i : ℕ) → i < n → get_or ring (0 + i) 0 ≡ wire (wrapped + i)
      agree i hi = rw add.zero (
          subst (λ t. get_or ring t 0 ≡ wire (wrapped + i))
            (wrap-mod consumed size i (omega (arith, mod-lt consumed positive)))
            (held.bytes (wrapped + i) (omega arith) (omega (arith, mod-lt consumed positive))))

take-length-append : (n : ℕ) (xs ys : List ℕ) → length xs ≡ n → take n (xs ++ ys) ≡ xs
take-length-append n [] ys h = rw (← h)
take-length-append n (x ∷ xs) ys h =
    rw (← h) (ap (λ zs. x ∷ zs) (take-length-append (length xs) xs ys refl))

drop-length-append :
    (m n : ℕ) (xs ys : List ℕ) → length xs ≡ m → drop (m + n) (xs ++ ys) ≡ drop n ys
drop-length-append m n [] ys h = rw (← h, add.zero)
drop-length-append m n (x ∷ xs) ys h =
    rw (← h, suc-add) (drop-length-append (length xs) n xs ys refl)

drop-drop : (m n : ℕ) (xs : List ℕ) → drop m (drop n xs) ≡ drop (n + m) xs
drop-drop m zero xs = rw add.zero
drop-drop zero (suc n) [] = rw add-zero
drop-drop (suc m) (suc n) [] = rw suc-add
drop-drop m (suc n) (x ∷ xs) = rw suc-add (drop-drop m n xs)

-- `copy_both` writes the planned bytes over the front of the destination.
copy_both-window :
    (ring out : List ℕ) (wire : ℕ → ℕ) (size received consumed : ℕ) (plan : ReadPlan)
    → Holds ring size wire received
    → received ≤ consumed + size
    → 0 < size
    → consumed + plan.copy_length ≤ received
    → plan.ring_offset ≡ consumed % size
    → plan.first_length ≡ min plan.copy_length (size - consumed % size)
    → copy_both plan ring out ≡ window wire consumed plan.copy_length ++ drop plan.copy_length out
unfolding copy_both
copy_both-window ring out wire size received consumed plan held fits positive h o f =
    elim (Bool-cases (ltb first copy)) [
      | inl split ↦
          rw
            (
              split,
              run,
              add.zero,
              take-length-append first (window wire consumed first) (drop first out)
                  (length-window wire consumed first),
              drop-length-append first (copy - first) (window wire consumed first) (drop first out)
                  (length-window wire consumed first),
              drop-drop (copy - first) first out,
              wrapped split,
            )
            (joined (omega (arith, ltb→lt first copy split)))
      | inr whole ↦
          rw (whole, run, add.zero) (ap (λ n. window wire consumed n ++ drop n out) (all whole))
    ]
  where
    first : ℕ
    first = plan.first_length

    copy : ℕ
    copy = plan.copy_length

    run :
        take plan.first_length (drop plan.ring_offset ring) ≡ window wire consumed plan.first_length
    run = rw o (
        first_run ring wire size received consumed held fits positive plan.first_length
          (omega arith) (omega (arith, mod-lt consumed positive)))

    all : ltb first copy ≡ false → first ≡ copy
    all e = ground arith

    wrapped :
        ltb first copy ≡ true
        → take (copy - first) ring ≡ window wire (consumed + first) (copy - first)
    wrapped e =
        let lt = ltb→lt first copy e in
        let end : first ≡ size - consumed % size = omega arith in
        rw end (
          second_run ring wire size received consumed held fits positive
            (copy - (size - consumed % size)) (omega arith))

    joined :
        first + (copy - first) ≡ copy
        → window wire consumed first
            ++ (window wire (consumed + first) (copy - first) ++ drop (first + (copy - first)) out)
          ≡ window wire consumed copy ++ drop copy out
    joined e = rw (← append_assoc, ← window-add, e)

copy_read-copy_both :
    (size : ℕ) (plan : ReadPlan) (ring out : List ℕ) (result : ℕ → List ℕ)
    → has_valid_layout size plan ≡ true
    → result 0 ≡ out
    → copy_both plan ring out ≡ result plan.copy_length
    → copy_read size (some ring) plan (some out) ≡ (true, some (result plan.copy_length))
unfolding copy_read
copy_read-copy_both size plan ring out result layout nothing copied =
    elim (Bool-cases (plan.copy_length == 0)) [
      | inl e ↦
          rw (layout, e)
            (ap (λ xs. (true, some xs)) (sym nothing ∙ ap result (sym ((==_iff _ _).0 e))))
      | inr ne ↦ rw (layout, ne, copied)
    ]

-- Reading: prepare a plan, copy it out and commit it. With at most a ring of unread bytes, the
-- call succeeds, the destination begins with the oldest unread bytes of the wire in their order
-- and is otherwise unchanged, and exactly those bytes count as consumed.
pub read_delivers :
    (k capacity : ℕ) (r : RxRing) (ring out : List ℕ) (wire : ℕ → ℕ) (received consumed : ℕ)
    → k ≤ 32
    → Tracks r received consumed
    → received ≤ consumed + 2 ^ k
    → Holds ring (2 ^ k) wire received
    → let plan = prepare_read (2 ^ k) r capacity in
      let count = min capacity (received - consumed) in
      (copy_read (2 ^ k) (some ring) plan (some out)
        ≡ (true, some (window wire consumed count ++ drop count out)))
      × ((commit_read (2 ^ k) r plan).1 ≡ true)
      × Tracks (commit_read (2 ^ k) r plan).0 received (consumed + count)
read_delivers k capacity r ring out wire received consumed hk t fits held =
    let facts = prepare_read-Tracks k capacity hk t fits in
    let layout = has_valid_layout-prepare_read k capacity hk t fits in
    let committed = commit-prepare_read k capacity hk t fits in
    (
      subst
          (λ n.
            copy_read (2 ^ k) (some ring) (prepare_read (2 ^ k) r capacity) (some out)
            ≡ (true, some (window wire consumed n ++ drop n out)))
          facts.2
          (copy_read-copy_both (2 ^ k) (prepare_read (2 ^ k) r capacity) ring out
            (λ n. window wire consumed n ++ drop n out) layout refl
            (copy_both-window ring out wire (2 ^ k) received consumed
              (prepare_read (2 ^ k) r capacity) held fits (pow-pos k) (omega arith) facts.3
              facts.4)),
      committed.0,
      committed.1,
    )
