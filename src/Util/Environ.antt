-- ===== src/Util/Environ.antt =====
-- src/util.c: the substitution of environment variables in a string. getenv is a parameter.
use memccache.Base.{
  ℕ, zero, suc, ◌≤◌, ◌≡◌, refl, sym, ap, ◌∙◌, [], ◌∷◌, ◌++◌, append-nil, append_assoc, arith,
  length, length-append, All, Bytes, codes, Option, none, some, Bool, true, false, ◌==◌, ◌||◌, ◌&&◌,
  leb, starts_with, if◌then◌else◌,
}
use memccache.Base.Decimal.{is_digit}

-- isalpha and isalnum in the C locale.
abbrev pub is_alpha : ℕ → Bool
is_alpha c = (leb 65 c && leb c 90) || (leb 97 c && leb c 122)

abbrev pub is_name_char : ℕ → Bool
is_name_char c = (is_alpha c || is_digit c) || c == 95

-- What stands in front of the first character that is not in a name, and the rest.
unfoldable pub name_span : Bytes → Bytes × Bytes
name_span [] = ([], [])
name_span (c ∷ cs) =
    let (name, rest) = name_span cs in if is_name_char c then (c ∷ name, rest) else ([], c ∷ cs)

-- expand_variable: the text for the result, and where the scan goes on; or the error.
pub data Expanded : Type 0 where
  expanded : Bytes → Bytes → Expanded
  refused : Bytes → Expanded

-- The variable whose name and rest are found; `dollar` is the text behind the `$`.
expand_name : (Bytes → Option Bytes) → Bytes → Bytes → Bytes → Expanded
expand_name getenv [] rest dollar = Expanded.expanded (codes "$") dollar
expand_name getenv (c ∷ cs) rest dollar = elim (getenv (c ∷ cs)) [
  | none ↦ Expanded.refused (codes "environment variable \"" ++ (c ∷ cs) ++ codes "\" not set")
  | some value ↦ Expanded.expanded value rest
]

-- Behind a curly bracket the name must end in one. `p` is the text from the name on.
expand_curly : (Bytes → Option Bytes) → Bytes → Bytes → Bytes → Expanded
unfolding expand_name
expand_curly getenv p name [] =
    Expanded.refused (codes "syntax error: missing '}' after \"" ++ p ++ codes "\"")
expand_curly getenv p name (c ∷ rest) =
    if c == b'}'
    then expand_name getenv name rest (b'{' ∷ p)
    else Expanded.refused (codes "syntax error: missing '}' after \"" ++ p ++ codes "\"")

expand_plain : (Bytes → Option Bytes) → Bytes → Expanded
unfolding name_span expand_name
expand_plain getenv p = let (name, rest) = name_span p in expand_name getenv name rest p

-- expand_variable on the text behind the `$`.
unfoldable pub expand_variable : (Bytes → Option Bytes) → Bytes → Expanded
unfolding name_span expand_curly expand_plain
expand_variable getenv [] = expand_plain getenv []
expand_variable getenv (c ∷ cs) =
    let (name, rest) = name_span cs in
    if c == b'{' then expand_curly getenv cs name rest else expand_plain getenv (c ∷ cs)

-- subst_env_in_string: the new string, or the error behind NULL.
pub data Substituted : Type 0 where
  substituted : Bytes → Substituted
  failed : Bytes → Substituted

-- The loop. `interval` is the text from p to q; the fuel is at least the length of the text ahead.
subst_loop : (Bytes → Option Bytes) → ℕ → Bytes → Bytes → Bytes → Substituted
subst_loop getenv zero result interval q = Substituted.substituted (result ++ interval)
subst_loop getenv (suc f) result interval [] = Substituted.substituted (result ++ interval)
subst_loop getenv (suc f) result interval (c ∷ q) =
    if c == b'$'
    then elim (expand_variable getenv q) [
      | Expanded.refused errmsg ↦ Substituted.failed errmsg
      | Expanded.expanded text rest ↦ subst_loop getenv f ((result ++ interval) ++ text) [] rest
    ]
    else subst_loop getenv f result (interval ++ c ∷ []) q

unfoldable pub subst_env_in_string : (Bytes → Option Bytes) → Bytes → Substituted
unfolding subst_loop
subst_env_in_string getenv str = subst_loop getenv (length str) [] [] str

-- `Expands getenv str v`: the string `str` stands for `v`.
pub data Expands (getenv : Bytes → Option Bytes) : Bytes → Bytes → Type 0 where
  done : Expands getenv [] []
  letter :
      {c : ℕ} {str v : Bytes}
      → c == b'$' ≡ false
      → Expands getenv str v
      → Expands getenv (c ∷ str) (c ∷ v)
  dollar :
      {str v : Bytes}
      → name_span str ≡ ([], str)
      → starts_with str (codes "{") ≡ false
      → Expands getenv str v
      → Expands getenv (b'$' ∷ str) (b'$' ∷ v)
  braced :
      {c : ℕ} {cs value str v : Bytes}
      → All (λ d. is_name_char d ≡ true) (c ∷ cs)
      → getenv (c ∷ cs) ≡ some value
      → Expands getenv str v
      → Expands getenv (b'$' ∷ (b'{' ∷ ((c ∷ cs) ++ b'}' ∷ str))) (value ++ v)
  bare :
      {c : ℕ} {cs value str v : Bytes}
      → All (λ d. is_name_char d ≡ true) (c ∷ cs)
      → getenv (c ∷ cs) ≡ some value
      → name_span str ≡ ([], str)
      → Expands getenv str v
      → Expands getenv (b'$' ∷ ((c ∷ cs) ++ str)) (value ++ v)

name_span-append :
    (name str : Bytes)
    → All (λ d. is_name_char d ≡ true) name
    → name_span str ≡ ([], str)
    → name_span (name ++ str) ≡ (name, str)
unfolding name_span
name_span-append [] str p h = h
name_span-append (c ∷ cs) str (e, p) h = rw (name_span-append cs str p h, e)

expand_variable_braced :
    (getenv : Bytes → Option Bytes) (c : ℕ) (cs value str : Bytes)
    → All (λ d. is_name_char d ≡ true) (c ∷ cs)
    → getenv (c ∷ cs) ≡ some value
    → expand_variable getenv (b'{' ∷ ((c ∷ cs) ++ b'}' ∷ str)) ≡ Expanded.expanded value str
unfolding expand_variable expand_curly expand_name name_span
expand_variable_braced getenv c cs value str p e =
    let p0 = (c ∷ cs) ++ b'}' ∷ str in
    ap (λ s. expand_curly getenv p0 s.0 s.1) (name_span-append (c ∷ cs) (b'}' ∷ str) p refl)
    ∙ rw (expand_curly, expand_name, e)

expand_variable_bare :
    (getenv : Bytes → Option Bytes) (c : ℕ) (cs value str : Bytes)
    → All (λ d. is_name_char d ≡ true) (c ∷ cs)
    → getenv (c ∷ cs) ≡ some value
    → name_span str ≡ ([], str)
    → expand_variable getenv ((c ∷ cs) ++ str) ≡ Expanded.expanded value str
unfolding expand_variable expand_plain expand_name
expand_variable_bare getenv c cs value str p e h =
    let plain : c == b'{' ≡ false = ground arith in
    rw (plain, expand_plain, name_span-append (c ∷ cs) str p h, expand_name, e)

expand_variable_dollar :
    (getenv : Bytes → Option Bytes) (str : Bytes)
    → name_span str ≡ ([], str)
    → starts_with str (codes "{") ≡ false
    → expand_variable getenv str ≡ Expanded.expanded (codes "$") str
unfolding expand_variable expand_plain expand_name starts_with
expand_variable_dollar getenv [] h e = refl
expand_variable_dollar getenv (c ∷ cs) h e =
    let plain : c == b'{' ≡ false = ground arith in rw (plain, expand_plain, h, expand_name)

flush : (r t v : Bytes) → ((r ++ t) ++ []) ++ v ≡ r ++ (t ++ v)
flush r t v = ap (λ u. u ++ v) (append-nil (r ++ t)) ∙ append_assoc r t v

subst_loop-Expands :
    (getenv : Bytes → Option Bytes) (f : ℕ) (result interval text value : Bytes)
    → length text ≤ f
    → Expands getenv text value
    → subst_loop getenv f result interval text
      ≡ Substituted.substituted ((result ++ interval) ++ value)
unfolding subst_loop
subst_loop-Expands getenv zero result interval _ _ h Expands.done =
    ap Substituted.substituted (sym (append-nil (result ++ interval)))
subst_loop-Expands getenv (suc f) result interval _ _ h Expands.done =
    ap Substituted.substituted (sym (append-nil (result ++ interval)))
subst_loop-Expands getenv zero result interval _ _ h (Expands.letter e p) = absurd (omega arith)
subst_loop-Expands getenv zero result interval _ _ h (Expands.dollar e d p) = absurd (omega arith)
subst_loop-Expands getenv zero result interval _ _ h (Expands.braced a e p) = absurd (omega arith)
subst_loop-Expands getenv zero result interval _ _ h (Expands.bare a e s p) = absurd (omega arith)
subst_loop-Expands getenv (suc f) result interval _ _ h (Expands.letter {c} {str} {v} e p) =
    let rest = subst_loop-Expands getenv f result (interval ++ c ∷ []) str v (omega arith) p in
    rw (e, rest)
      (ap Substituted.substituted (
        ap (λ t. t ++ v) (sym (append_assoc result interval (c ∷ [])))
        ∙ append_assoc (result ++ interval) (c ∷ []) v))
subst_loop-Expands getenv (suc f) result interval _ _ h (Expands.dollar {str} {v} e d p) =
    let rest =
      subst_loop-Expands getenv f ((result ++ interval) ++ codes "$") [] str v (omega arith) p in
    rw (expand_variable_dollar getenv str e d, rest)
      (ap Substituted.substituted (flush (result ++ interval) (codes "$") v))
subst_loop-Expands getenv (suc f) result interval _ _ h
      (Expands.braced {c} {cs} {value} {str} {v} a e p) =
    let shorter = length-append cs (b'}' ∷ str) in
    let rest =
      subst_loop-Expands getenv f ((result ++ interval) ++ value) [] str v (omega arith) p in
    rw (expand_variable_braced getenv c cs value str a e, rest)
      (ap Substituted.substituted (flush (result ++ interval) value v))
subst_loop-Expands getenv (suc f) result interval _ _ h
      (Expands.bare {c} {cs} {value} {str} {v} a e s p) =
    let shorter = length-append cs str in
    let rest =
      subst_loop-Expands getenv f ((result ++ interval) ++ value) [] str v (omega arith) p in
    rw (expand_variable_bare getenv c cs value str a e s, rest)
      (ap Substituted.substituted (flush (result ++ interval) value v))

-- What a string stands for is what subst_env_in_string makes of it: the value of each variable
-- that is set, in brackets or in front of a character that is in no name, a dollar sign in
-- front of such a character other than a bracket, and all other characters as they are.
pub subst_env_in_string-Expands :
    (getenv : Bytes → Option Bytes) (str v : Bytes)
    → Expands getenv str v
    → subst_env_in_string getenv str ≡ Substituted.substituted v
unfolding subst_env_in_string
subst_env_in_string-Expands getenv str v p =
    subst_loop-Expands getenv (length str) [] [] str v (omega arith) p

-- A string without `$` stands for itself.
pub All-Expands :
    (getenv : Bytes → Option Bytes) (str : Bytes)
    → All (λ c. c == b'$' ≡ false) str
    → Expands getenv str str
All-Expands getenv [] p = Expands.done
All-Expands getenv (c ∷ cs) (e, p) = Expands.letter e (All-Expands getenv cs p)
