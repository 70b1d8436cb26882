-- ===== src/Mdfour/Update.antt =====
-- mdfour_update of src/mdfour.c: feeding a digest in pieces is feeding it at once.
use memccache.Base.{
  ◌%◌, ◌^◌, ℕ, zero, suc, ◌+◌, ◌-◌, ◌≤◌, ◌<◌, ◌≡◌, refl, sym, ap, ap₂, ◌∙◌, [], ◌∷◌, ◌++◌,
  append-nil, true, false, arith, ltb, leb, ◌==◌, Bool-cases, inl, inr, leb→le, leb→gt, le→leb,
  ltb→lt, ltb→ge, take, drop, length, length-append, length-take, length-drop, append_assoc, Bytes,
}
use memccache.Mdfour.{Mdfour, absorb, mdfour64, update_loop, mdfour_update}

-- The state after all of `bs`, taken in 64-byte blocks from the start; what is left is the tail.
pub run : ℕ → Mdfour → Bytes → Mdfour
run zero md bs = record md { tail = bs }
run (suc f) md bs = elim (leb 64 (length bs)) [
  | true ↦ run f (absorb md (take 64 bs)) (drop 64 bs)
  | false ↦ record md { tail = bs }
]

-- The tail that stands in the state before does not matter to `run`.
absorb_tail :
    (md : Mdfour) (t block : Bytes)
    → absorb (record md { tail = t }) block ≡ record (absorb md block) { tail = t }
unfolding absorb mdfour64
absorb_tail md t block = refl

run_tail : (f : ℕ) (md : Mdfour) (t bs : Bytes) → run f (record md { tail = t }) bs ≡ run f md bs
unfolding run
run_tail zero md t bs = refl
run_tail (suc f) md t bs = elim (Bool-cases (leb 64 (length bs))) [
  | inl e ↦
      rw (e, run, absorb_tail md t (take 64 bs), run_tail f (absorb md (take 64 bs)) t (drop 64 bs))
  | inr e ↦ rw (e, run)
]

run_long :
    (f : ℕ) (md : Mdfour) (bs : Bytes)
    → 64 ≤ length bs
    → run (suc f) md bs ≡ run f (absorb md (take 64 bs)) (drop 64 bs)
unfolding run
run_long f md bs h = rw (le→leb 64 (length bs) h, run)

run_short :
    (f : ℕ) (md : Mdfour) (bs : Bytes) → length bs < 64 → run f md bs ≡ record md { tail = bs }
unfolding run
run_short zero md bs h = refl
run_short (suc f) md bs h = let e : leb 64 (length bs) ≡ false = ground arith in rw (e, run)

-- Any fuel that is enough gives one result.
run_fuel :
    (f g : ℕ) (md : Mdfour) (bs : Bytes) → length bs ≤ f → length bs ≤ g → run f md bs ≡ run g md bs
unfolding run
run_fuel zero g md bs h k = sym (run_short g md bs (omega arith))
run_fuel (suc f) zero md bs h k = run_short (suc f) md bs (omega arith)
run_fuel (suc f) (suc g) md bs h k = elim (Bool-cases (leb 64 (length bs))) [
  | inl e ↦
      let long = leb→le 64 (length bs) e in
      let n = length-drop 64 bs in
      rw (run_long f md bs long, run_long g md bs long)
        (run_fuel f g (absorb md (take 64 bs)) (drop 64 bs) (omega arith) (omega arith))
  | inr e ↦
      let short = leb→gt 64 (length bs) e in
      rw (run_short (suc f) md bs short, run_short (suc g) md bs short)
]

kept_tail : (md : Mdfour) (block : Bytes) → (absorb md block).tail ≡ md.tail
unfolding absorb mdfour64
kept_tail md block = refl

-- The source's loop, which leaves the tail alone where nothing is left.
update_loop-run :
    (f : ℕ) (md : Mdfour) (bs : Bytes)
    → length bs ≤ f
    → md.tail ≡ []
    → update_loop f md bs ≡ run f md bs
unfolding update_loop run
update_loop-run zero md [] h e = λ i. record md { tail = e i }
update_loop-run zero md (x ∷ bs) h e = absurd (omega arith)
update_loop-run (suc f) md [] h e = λ i. record md { tail = e i }
update_loop-run (suc f) md (x ∷ bs) h e = elim (Bool-cases (leb 64 (length (x ∷ bs)))) [
  | inl q ↦
      rw (q, update_loop, run)
        (update_loop-run f (absorb md (take 64 (x ∷ bs))) (drop 64 (x ∷ bs))
          (omega (arith, length-drop 64 (x ∷ bs))) (kept_tail md (take 64 (x ∷ bs)) ∙ e))
  | inr q ↦
      let some_left : length (x ∷ bs) == 0 ≡ false = ground arith in
      rw (q, update_loop, run, some_left)
]

take_append_long : (n : ℕ) (xs ys : Bytes) → n ≤ length xs → take n (xs ++ ys) ≡ take n xs
take_append_long zero xs ys h = refl
take_append_long (suc n) [] ys h = absurd (omega arith)
take_append_long (suc n) (x ∷ xs) ys h = ap (◌∷◌ x) (take_append_long n xs ys (omega arith))

drop_append_long : (n : ℕ) (xs ys : Bytes) → n ≤ length xs → drop n (xs ++ ys) ≡ drop n xs ++ ys
drop_append_long zero xs ys h = refl
drop_append_long (suc n) [] ys h = absurd (omega arith)
drop_append_long (suc n) (x ∷ xs) ys h = drop_append_long n xs ys (omega arith)

-- Going on from the tail that the first part left is going on from the start.
run-append :
    (f g : ℕ) (md : Mdfour) (xs ys : Bytes)
    → length xs ≤ f
    → length (xs ++ ys) ≤ g
    → run g (run f md xs) ((run f md xs).tail ++ ys) ≡ run g md (xs ++ ys)
run-append zero g md xs ys h hg =
    let same = run_short zero md xs (omega arith) in rw (same, run_tail g md xs (xs ++ ys))
run-append (suc f) g md xs ys h hg = elim (Bool-cases (leb 64 (length xs))) [
  | inr e ↦
      let same = run_short (suc f) md xs (leb→gt 64 (length xs) e) in
      rw (same, run_tail g md xs (xs ++ ys))
  | inl e ↦
      let long = leb→le 64 (length xs) e in
      let n = length-drop 64 xs in
      let sum = length-append xs ys in
      let rest = drop 64 xs ++ ys in
      let size = length-append (drop 64 xs) ys in
      let ih =
        run-append f g (absorb md (take 64 xs)) (drop 64 xs) ys (omega arith) (omega arith) in
      rw (run_long f md xs long) (
        ih
        ∙ run_fuel g (length (xs ++ ys)) (absorb md (take 64 xs)) rest (omega arith) (omega arith)
        ∙ sym (
            run_fuel g (suc (length (xs ++ ys))) md (xs ++ ys) hg (omega arith)
            ∙ run_long (length (xs ++ ys)) md (xs ++ ys) (omega arith)
            ∙ ap₂ (run (length (xs ++ ys))) (ap (absorb md) (take_append_long 64 xs ys long))
                (drop_append_long 64 xs ys long)))
]

take_append_more : (t bs : Bytes) (n : ℕ) → take (length t + n) (t ++ bs) ≡ t ++ take n bs
take_append_more [] bs n = ap (λ k. take k bs) (omega arith)
take_append_more (x ∷ t) bs n =
    let e : suc (length t) + n ≡ suc (length t + n) = omega arith in
    rw e (ap (◌∷◌ x) (take_append_more t bs n))

drop_append_more : (t bs : Bytes) (n : ℕ) → drop (length t + n) (t ++ bs) ≡ drop n bs
drop_append_more [] bs n = ap (λ k. drop k bs) (omega arith)
drop_append_more (x ∷ t) bs n =
    let e : suc (length t) + n ≡ suc (length t + n) = omega arith in rw e (drop_append_more t bs n)

take_whole : (bs : Bytes) → take (length bs) bs ≡ bs
take_whole [] = refl
take_whole (x ∷ bs) = ap (◌∷◌ x) (take_whole bs)

drop_whole : (bs : Bytes) → drop (length bs) bs ≡ []
drop_whole [] = refl
drop_whole (x ∷ bs) = drop_whole bs

nil_of_length : (bs : Bytes) → length bs ≡ 0 → bs ≡ []
nil_of_length [] h = refl
nil_of_length (x ∷ bs) h = absurd (omega arith)

tail_of_run : (f : ℕ) (md : Mdfour) (bs : Bytes) → length bs ≤ f → length (run f md bs).tail < 64
unfolding run
tail_of_run zero md bs h = omega arith
tail_of_run (suc f) md bs h = elim (Bool-cases (leb 64 (length bs))) [
  | inl e ↦
      rw (e, run)
        (tail_of_run f (absorb md (take 64 bs)) (drop 64 bs)
          (omega (arith, length-drop 64 bs, leb→le 64 (length bs) e)))
  | inr e ↦ rw (e, run) (leb→gt 64 (length bs) e)
]

module _ (md : Mdfour) (bs : Bytes) (short : length md.tail < 64) where
  abbrev room : ℕ
  room = 64 - length md.tail

  -- The tail fills up to a block.
  fill-run :
      room ≤ length bs
      → update_loop
          (length (drop room bs))
          (record (absorb md (md.tail ++ take room bs)) { tail = [] })
          (drop room bs)
        ≡ run (length (md.tail ++ bs)) md (md.tail ++ bs)
  fill-run h =
      let size = length-append md.tail bs in
      let n = length-drop room bs in
      let whole : length md.tail + room ≡ 64 = omega arith in
      let block : take 64 (md.tail ++ bs) ≡ md.tail ++ take room bs =
        rw whole at (take_append_more md.tail bs room) in
      let left : drop 64 (md.tail ++ bs) ≡ drop room bs =
        rw whole at (drop_append_more md.tail bs room) in
      let k = length (md.tail ++ bs) in
      update_loop-run (length (drop room bs)) _ (drop room bs) (omega arith) refl
      ∙ run_tail (length (drop room bs)) (absorb md (md.tail ++ take room bs)) [] (drop room bs)
      ∙ run_fuel (length (drop room bs)) k (absorb md (md.tail ++ take room bs)) (drop room bs)
          (omega arith) (omega arith)
      ∙ sym (
          run_fuel k (suc k) md (md.tail ++ bs) (omega arith) (omega arith)
          ∙ run_long k md (md.tail ++ bs) (omega arith)
          ∙ ap₂ (run k) (ap (absorb md) block) left)

  -- The update is the block-wise run over the tail and the new bytes.
  mdfour_update-run : mdfour_update md bs ≡ run (length (md.tail ++ bs)) md (md.tail ++ bs)
  unfolding mdfour_update update_loop
  mdfour_update-run = elim (Bool-cases (length md.tail == 0)) [
    | inl e ↦
        let nil = nil_of_length md.tail (ground arith) in
        rw e (
          update_loop-run (length bs) md bs (omega arith) nil
          ∙ sym (ap (λ t. run (length (t ++ bs)) md (t ++ bs)) nil))
    | inr e ↦ elim (Bool-cases (ltb (length bs) room)) [
      | inl q ↦
          let few = ltb→lt (length bs) room q in
          let size = length-append md.tail bs in
          let part : length (md.tail ++ bs) == 64 ≡ false = ground arith in
          rw (e, q, take_whole bs, drop_whole bs, part, update_loop)
            (sym (run_short (length (md.tail ++ bs)) md (md.tail ++ bs) (omega arith)))
      | inr q ↦
          let many = ltb→ge (length bs) room q in
          let size = length-append md.tail (take room bs) in
          let n = length-take room bs in
          let full : length (md.tail ++ take room bs) == 64 ≡ true = ground arith in
          rw (e, q, full) (fill-run many)
    ]
  ]

-- The tail stays shorter than a block.
pub mdfour_update_tail :
    (md : Mdfour) (bs : Bytes) → length md.tail < 64 → length (mdfour_update md bs).tail < 64
mdfour_update_tail md bs short =
    rw (mdfour_update-run md bs short)
      (tail_of_run (length (md.tail ++ bs)) md (md.tail ++ bs) (omega arith))

-- For a digest state with fewer than 64 bytes in its tail, feeding two pieces in turn gives the
-- same state as feeding them joined: block boundaries and the bytes that wait in the tail make
-- no difference.
pub mdfour_update-append :
    (md : Mdfour) (xs ys : Bytes)
    → length md.tail < 64
    → mdfour_update (mdfour_update md xs) ys ≡ mdfour_update md (xs ++ ys)
mdfour_update-append md xs ys short =
    let all = md.tail ++ xs in
    let n = length all in
    let first = mdfour_update-run md xs short in
    let k = length ((mdfour_update md xs).tail ++ ys) in
    let g = k + length (all ++ ys) in
    let joined = append_assoc md.tail xs ys in
    mdfour_update-run (mdfour_update md xs) ys (mdfour_update_tail md xs short)
    ∙ run_fuel k g (mdfour_update md xs) ((mdfour_update md xs).tail ++ ys) (omega arith)
        (omega arith)
    ∙ ap (λ m. run g m (m.tail ++ ys)) first
    ∙ run-append n g md all ys (omega arith) (omega arith)
    ∙ run_fuel g (length (all ++ ys)) md (all ++ ys) (omega arith) (omega arith)
    ∙ ap (λ t. run (length t) md t) joined
    ∙ sym (mdfour_update-run md (xs ++ ys) short)

-- Feeding nothing changes nothing.
pub mdfour_update-nil : (md : Mdfour) → length md.tail < 64 → mdfour_update md [] ≡ md
unfolding mdfour_update update_loop
mdfour_update-nil md short = elim (Bool-cases (length md.tail == 0)) [
  | inl e ↦ rw e
  | inr e ↦
      let more : ltb 0 (64 - length md.tail) ≡ true = ground arith in
      let partial : length md.tail == 64 ≡ false = ground arith in
      rw (e, more, append-nil md.tail, partial)
]

run_size :
    (f : ℕ) (md : Mdfour) (bs : Bytes)
    → ((run f md bs).total_n + length (run f md bs).tail) % 2 ^ 64
      ≡ (md.total_n + length bs) % 2 ^ 64
unfolding run absorb mdfour64
run_size zero md bs = refl
run_size (suc f) md bs = elim (Bool-cases (leb 64 (length bs))) [
  | inr e ↦ rw (e, run)
  | inl e ↦
      let long = leb→le 64 (length bs) e in
      let ih = run_size f (absorb md (take 64 bs)) (drop 64 bs) in
      let n = length-drop 64 bs in
      let counted : (absorb md (take 64 bs)).total_n ≡ (md.total_n + 64) % 2 ^ 64 = refl in
      rw (e, run) (ih ∙ omega arith)
]

-- The bytes counted grow by those fed.
pub mdfour_update-size :
    (md : Mdfour) (bs : Bytes)
    → length md.tail < 64
    → ((mdfour_update md bs).total_n + length (mdfour_update md bs).tail) % 2 ^ 64
      ≡ (md.total_n + length md.tail + length bs) % 2 ^ 64
mdfour_update-size md bs short =
    let same = mdfour_update-run md bs short in
    let size = run_size (length (md.tail ++ bs)) md (md.tail ++ bs) in
    let n = length-append md.tail bs in rw same (size ∙ omega arith)
