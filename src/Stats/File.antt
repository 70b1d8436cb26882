-- ===== src/Stats/File.antt =====
-- src/stats.c: parse_stats adds to the counters what stats_write has written.
use memccache.Base.{
  ℕ, zero, suc, ◌+◌, ◌-◌, ◌%◌, ◌^◌, ◌≤◌, ◌<◌, List, [], ◌∷◌, length, length-append, length-set,
  get_or, get_or-set, get_or-beyond, All, false, ◌&&◌, Option, none, some, ltb, ltb→lt, ltb→ge,
  ◌==◌, ◌⊎◌, Bool-cases, inl, inr, if◌then◌else◌, Bytes, ◌≡◌, refl, sym, ap, ◌∙◌, arith,
}
use memccache.Base.Decimal.{decimal, strtol, Parsed, strtol-decimal}
use memccache.Counters.{
  Counters, IsValid, counters_resize, counters_resize-IsValid, get_or-counters_resize,
}
use memccache.Stats.{add_long, add_at, parse_loop, parse_stats, print_counters, stats_write}

number : ℕ → Bytes → Parsed
number n rest = record { negative = false; magnitude = n; rest = rest }

-- The additions, one by one.
sum_each : Counters → ℕ → List ℕ → Counters
sum_each c i [] = c
sum_each c i (n ∷ ns) = sum_each (add_at c i (number n [])) (i + 1) ns

-- A line break before a number is skipped.
parse_loop_newline :
    (f : ℕ) (c : Counters) (i : ℕ) (bs : Bytes) → parse_loop f c i (10 ∷ bs) ≡ parse_loop f c i bs
unfolding parse_loop strtol
parse_loop_newline zero c i bs = refl
parse_loop_newline (suc f) c i bs = refl

parse_loop_end : (f : ℕ) (c : Counters) (i : ℕ) → parse_loop f c i [] ≡ c
unfolding parse_loop strtol
parse_loop_end zero c i = refl
parse_loop_end (suc f) c i = refl

parse_loop-print_counters :
    (f : ℕ) (c : Counters) (i : ℕ) (ns : List ℕ)
    → length ns ≤ f
    → All (λ n. n < 2 ^ 32) ns
    → parse_loop f c i (print_counters ns) ≡ sum_each c i ns
unfolding print_counters sum_each parse_loop add_at add_long number
parse_loop-print_counters f c i [] h p = parse_loop_end f c i
parse_loop-print_counters zero c i (n ∷ ns) h p = absurd (omega arith)
parse_loop-print_counters (suc f) c i (n ∷ ns) h (small, p) =
    let read = strtol-decimal n 10 (print_counters ns) (omega arith) refl in
    let next = add_at c i (number n []) in
    let go : Option Parsed → Counters =
      λ o. elim o [ none ↦ c | some val ↦ parse_loop f (add_at c i val) (i + 1) val.rest ] in
    ap go read
    ∙ parse_loop_newline f next (i + 1) (print_counters ns)
    ∙ parse_loop-print_counters f next (i + 1) ns (omega arith) p

length-print_counters : (ns : List ℕ) → length ns ≤ length (print_counters ns)
unfolding print_counters
length-print_counters [] = omega arith
length-print_counters (n ∷ ns) =
    let ih = length-print_counters ns in
    let total = length-append (decimal n) (10 ∷ print_counters ns) in omega arith

-- The counters with room for `i`: the same values.
room : Counters → ℕ → Counters
room c i = if ltb c.size (i + 1) then counters_resize c (i + 1) else c

room_lem :
    (c : Counters) (i : ℕ)
    → IsValid c
    → IsValid (room c i)
      × (i < (room c i).size)
      × ((j : ℕ) → get_or (room c i).data' j 0 ≡ get_or c.data' j 0)
unfolding room
room_lem c i h = elim (Bool-cases (ltb c.size (i + 1))) [
  | inl e ↦
      let less = ltb→lt c.size (i + 1) e in
      let (valid, size) = counters_resize-IsValid c (i + 1) h in
      let values : (j : ℕ) → get_or (counters_resize c (i + 1)).data' j 0 ≡ get_or c.data' j 0 =
        λ j.
          let value = get_or-counters_resize c (i + 1) j h.0 in
          let beyond = get_or-beyond c.data' j 0 in ground arith in
      rw (room, e) (valid, omega (arith, size), values)
  | inr e ↦ let more = ltb→ge c.size (i + 1) e in rw (room, e) (h, omega arith, λ j. refl)
]

compare_cases : (a b : ℕ) → (a < b) ⊎ ((a ≡ b) ⊎ (b < a))
compare_cases a b = ground arith

one_changed :
    (i j l a b a' b' n : ℕ)
    → i < l
    → a ≡ a'
    → b ≡ b'
    → (if (i == j) && ltb i l then (a + n) % 2 ^ 32 else b)
      ≡ (if j == i then (a' + n) % 2 ^ 32 else b')
one_changed i j l a b a' b' n h e e' = ground arith

get_or-cons :
    (n : ℕ) (ns : List ℕ) (d : ℕ)
    → get_or (n ∷ ns) d 0 ≡ (if d == 0 then n else get_or ns (d - 1) 0)
get_or-cons n ns zero = ground arith
get_or-cons n ns (suc d) = ground arith

-- One addition at `i` and those behind it, at `j`.
sums :
    (i j l n a b x y : ℕ)
    → (j ≡ i → a ≡ b)
    → (y ≡ (if j - i == 0 then n else x))
    → (if ltb j (i + 1)
        then (if j == i then (a + n) % 2 ^ 32 else b)
        else (if ltb (j - (i + 1)) l
            then ((if j == i then (a + n) % 2 ^ 32 else b) + x) % 2 ^ 32
            else (if j == i then (a + n) % 2 ^ 32 else b)))
      ≡ (if ltb j i then b else (if ltb (j - i) (suc l) then (b + y) % 2 ^ 32 else b))
sums i j l n a b x y h e = elim (compare_cases j i) [
  | inl less ↦ ground arith
  | inr (inl same) ↦ let e' = h same in ground arith
  | inr (inr more) ↦ ground arith
]

-- One addition keeps the array well formed and changes only the counter at `i`.
add_at_lem :
    (c : Counters) (i n : ℕ) (r : Bytes)
    → IsValid c
    → IsValid (add_at c i (number n r))
      × ((j : ℕ)
          → get_or (add_at c i (number n r)).data' j 0
            ≡ (if j == i then (get_or c.data' i 0 + n) % 2 ^ 32 else get_or c.data' j 0))
unfolding add_at add_long number room
add_at_lem c i n r h =
    let ((size, allocated), inside, values) = room_lem c i h in
    let v = (get_or (room c i).data' i 0 + n) % 2 ^ 32 in
    let kept = length-set (room c i).data' i v in
    (
      (kept ∙ size, allocated),
      λ j.
          get_or-set (room c i).data' i j v 0
          ∙ one_changed i j (length (room c i).data') _ _ _ _ n (omega arith) (values i) (values j),
    )

-- All additions: the counters from `i` on grow by those written, modulo 2^32.
sum_each_lem :
    (c : Counters) (i : ℕ) (ns : List ℕ) (j : ℕ)
    → IsValid c
    → IsValid (sum_each c i ns)
      × (get_or (sum_each c i ns).data' j 0 ≡ (
          if ltb j i
          then get_or c.data' j 0
          else (if ltb (j - i) (length ns)
              then (get_or c.data' j 0 + get_or ns (j - i) 0) % 2 ^ 32
              else get_or c.data' j 0)))
unfolding sum_each
sum_each_lem c i [] j h = (h, ground arith)
sum_each_lem c i (n ∷ ns) j h =
    let (valid, value) = add_at_lem c i n [] h in
    let (valid', rest) = sum_each_lem (add_at c i (number n [])) (i + 1) ns j valid in
    let behind : get_or ns (j - i - 1) 0 ≡ get_or ns (j - (i + 1)) 0 =
      ap (λ d. get_or ns d 0) (omega arith) in
    let written = get_or-cons n ns (j - i) ∙ ap (λ x. if j - i == 0 then n else x) behind in
    let total =
      sums i j (length ns) n (get_or c.data' i 0) (get_or c.data' j 0) (get_or ns (j - (i + 1)) 0)
        (get_or (n ∷ ns) (j - i) 0) (λ e. ap (λ k. get_or c.data' k 0) (sym e)) written in
    (
      valid',
      rest
          ∙ ap
              (λ x.
                if ltb j (i + 1)
                then x
                else (if ltb (j - (i + 1)) (length ns)
                    then (x + get_or ns (j - (i + 1)) 0) % 2 ^ 32
                    else x))
              (value j)
          ∙ total,
    )

-- Reading a file that stats_write wrote from counters below 2^32 adds them to well-formed
-- counters: the array stays well formed, each of the counters written grows by its value modulo
-- 2^32, and the others keep theirs.
pub parse_stats-stats_write :
    (c written : Counters) (j : ℕ)
    → IsValid c
    → All (λ n. n < 2 ^ 32) written.data'
    → IsValid (parse_stats c (stats_write written))
      × (get_or (parse_stats c (stats_write written)).data' j 0 ≡ (
          if ltb j (length written.data')
          then (get_or c.data' j 0 + get_or written.data' j 0) % 2 ^ 32
          else get_or c.data' j 0))
unfolding parse_stats stats_write
parse_stats-stats_write c written j h p =
    let same =
      parse_loop-print_counters (length (print_counters written.data')) c 0 written.data'
        (length-print_counters written.data') p in
    let (valid, value) = sum_each_lem c 0 written.data' j h in
    let offset : j - 0 ≡ j = omega arith in
    let start : ltb j 0 ≡ false = ground arith in rw same (valid, value ∙ rw (start, offset))
