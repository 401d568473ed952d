-- ===== src/Util/Replace/Reference.antt =====
-- Where `news` is at least as long as `subs` and cannot make a new occurrence, `str_replace` ends
-- and replaces the occurrences from left to right.
use bacs_legacy.Base.{
  inl, inr, map, ◌∙◌, length-take, take-append-drop, ℕ, zero, suc, ◌+◌, ◌≡◌, ◌≢◌, ◌≤◌, ◌<◌, refl,
  ap, true, Option, none, some, [], ◌∷◌, ◌++◌, append_assoc, Bytes, ◌==◌, if◌then◌else◌, length,
  take, drop, find_bytes, begins, length-append, length-drop, arith, Option-cases,
  drop-length-append,
}
use bacs_legacy.Util.Split.{Lacks}
use bacs_legacy.Util.Replace.{find_from, replace_at, replace_loop, str_replace}

-- The leftmost occurrence is replaced, and the text behind it is done in the same way.
pub replace_all : ℕ → Bytes → Bytes → Bytes → Bytes
replace_all zero s subs news = s
replace_all (suc fuel) s subs news = elim (find_bytes subs s) [
  | none ↦ s
  | some k ↦ take k s ++ (news ++ replace_all fuel (drop (k + length subs) s) subs news)
]

abbrev shift : ℕ → Option ℕ → Option ℕ
shift n none = none
shift n (some k) = some (n + k)

-- A match begins with the first byte of what is looked for.
find_bytes-skip :
    (b : ℕ) (subs mid rest : Bytes)
    → Lacks b mid
    → find_bytes (b ∷ subs) (mid ++ rest) ≡ shift (length mid) (find_bytes (b ∷ subs) rest)
find_bytes-skip b subs [] rest h = ground arith
find_bytes-skip b subs (a ∷ mid) rest h = ground (arith, find_bytes-skip b subs mid rest h.1)

drop-append : (n : ℕ) (s t : Bytes) → n ≤ length s → drop n (s ++ t) ≡ drop n s ++ t
drop-append zero s t h = refl
drop-append (suc n) [] t h = absurd (omega arith)
drop-append (suc n) (a ∷ s) t h = drop-append n s t (omega arith)

drop_past_append : (s : Bytes) (n : ℕ) (t : Bytes) → drop (length s + n) (s ++ t) ≡ drop n t
drop_past_append [] n t = let e : 0 + n ≡ n = omega arith in rw e refl
drop_past_append (a ∷ s) n t =
    let e : suc (length s) + n ≡ suc (length s + n) = omega arith in rw e (drop_past_append s n t)

take_past_append : (s : Bytes) (n : ℕ) (t : Bytes) → take (length s + n) (s ++ t) ≡ s ++ take n t
take_past_append [] n t = let e : 0 + n ≡ n = omega arith in rw e refl
take_past_append (a ∷ s) n t =
    let e : suc (length s) + n ≡ suc (length s + n) = omega arith in
    rw e (ap (λ r. a ∷ r) (take_past_append s n t))

begins-le : (s t : Bytes) → begins s t ≡ true → length t ≤ length s
begins-le s [] h = omega arith
begins-le [] (b ∷ t) h = cc
begins-le (a ∷ s) (b ∷ t) h = ground (arith, begins-le s t)

-- An occurrence lies inside the text.
find_bytes-bound :
    (subs s : Bytes) (k : ℕ) → find_bytes subs s ≡ some k → k + length subs ≤ length s
find_bytes-bound subs [] k h = ground (arith, begins-le [] subs)
find_bytes-bound subs (a ∷ s) k h = elim (Option-cases (find_bytes subs s)) [
  | inl e ↦ ground (arith, begins-le (a ∷ s) subs)
  | inr (j, e) ↦ ground (arith, begins-le (a ∷ s) subs, find_bytes-bound subs s j e)
]

find_from_split :
    (subs done s : Bytes)
    → find_from subs (done ++ s) (length done) ≡ shift (length done) (find_bytes subs s)
unfolding find_from
find_from_split subs done s = ground (arith, length-append done s, drop-length-append done s)

Lacks-drop : (b n : ℕ) (s : Bytes) → Lacks b s → Lacks b (drop n s)
Lacks-drop b zero s h = h
Lacks-drop b (suc n) [] h = h
Lacks-drop b (suc n) (a ∷ s) h = Lacks-drop b n s h.1

regroup :
    (a b c t u d n : Bytes)
    → t ++ u ≡ n
    → (a ++ (b ++ c)) ++ (n ++ d) ≡ (a ++ (b ++ (c ++ t))) ++ (u ++ d)
regroup a b c t u d n h = rw (← h) (simp append_assoc)

append-regroup : (a b c d : Bytes) → (a ++ (b ++ c)) ++ d ≡ a ++ (b ++ (c ++ d))
append-regroup a b c d = simp append_assoc

module _ (b : ℕ) (t news : Bytes) (clear : Lacks b news)
    (longer : length (b ∷ t) ≤ length news) where
  abbrev subs : Bytes
  subs = b ∷ t

  -- What stands in front of the next search after one round.
  abbrev passed : Bytes → Bytes → Bytes → ℕ → Bytes
  passed done mid rest k = done ++ (mid ++ (take k rest ++ take (length subs) news))

  length-passed :
      (done mid rest : Bytes) (k : ℕ)
      → k + length subs ≤ length rest
      → length (passed done mid rest k) ≡ length done + (length mid + k) + length subs
  length-passed done mid rest k h = omega (
    arith,
    length-append {0} done (mid ++ (take k rest ++ take (length subs) news)),
    length-append {0} mid (take k rest ++ take (length subs) news),
    length-append {0} (take k rest) (take (length subs) news),
    length-take {0} k rest,
    length-take {0} (length subs) news,
  )

  replace_at-passed :
      (done mid rest : Bytes) (k : ℕ)
      → k + length subs ≤ length rest
      → replace_at (done ++ (mid ++ rest)) (length done + (length mid + k)) (length subs) news
        ≡ passed done mid rest k ++ (drop (length subs) news ++ drop (k + length subs) rest)
  unfolding replace_at
  replace_at-passed done mid rest k h =
      let n = length subs in
      let e : length done + (length mid + k) + n ≡ length done + (length mid + (k + n)) =
        omega arith in
      rw
        (
          take_past_append done (length mid + k) (mid ++ rest),
          take_past_append mid k rest,
          e,
          drop_past_append done (length mid + (k + n)) (mid ++ rest),
          drop_past_append mid (k + n) rest,
        )
        (regroup done mid (take k rest) (take n news) (drop n news) (drop (k + n) rest) news
          (take-append-drop n news))

  loop-replace_all :
      (fuel : ℕ) (done mid rest : Bytes)
      → Lacks b mid
      → length rest < fuel
      → replace_loop fuel subs news (done ++ (mid ++ rest)) (length done)
        ≡ some (done ++ (mid ++ replace_all fuel rest subs news))
  unfolding replace_loop replace_all
  loop-replace_all zero done mid rest c h = elim h [ ]
  loop-replace_all (suc fuel) done mid rest c h = elim (Option-cases (find_bytes subs rest)) [
    | inl e ↦
        ground (arith, find_from_split subs done (mid ++ rest), find_bytes-skip b t mid rest c)
    | inr (k, e) ↦ ground (
      arith,
      find_from_split subs done (mid ++ rest),
      find_bytes-skip b t mid rest c,
      replace_at-passed done mid rest k,
      length-passed done mid rest k,
      find_bytes-bound subs rest k e,
      length-drop (k + length subs) rest,
      Lacks-drop b (length subs) news clear,
      append-regroup done mid (take k rest)
          (news ++ replace_all fuel (drop (k + length subs) rest) subs news),
      loop-replace_all fuel (passed done mid rest k) (drop (length subs) news)
          (drop (k + length subs) rest),
      regroup done mid (take k rest) (take (length subs) news) (drop (length subs) news)
          (replace_all fuel (drop (k + length subs) rest) subs news) news
          (take-append-drop (length subs) news),
    )
  ]

-- With `news` at least as long as `subs`, and without the first byte of `subs` in it, the loop ends
-- within `s.length() + 1` rounds, and it replaces every occurrence from left to right.
pub str_replace-replace_all :
    (b : ℕ) (t s news : Bytes)
    → Lacks b news
    → length (b ∷ t) ≤ length news
    → str_replace (suc (length s)) s (b ∷ t) news
      ≡ some (replace_all (suc (length s)) s (b ∷ t) news)
unfolding str_replace
str_replace-replace_all b t s news clear longer =
    loop-replace_all b t news clear longer (suc (length s)) [] [] s tt (omega arith)

module _ (c d : ℕ) where
  abbrev swap_byte : ℕ → ℕ
  swap_byte a = if a == c then d else a

  replace_all_byte :
      (fuel : ℕ) (s : Bytes)
      → length s < fuel
      → replace_all fuel s (c ∷ []) (d ∷ []) ≡ map swap_byte s
  unfolding replace_all
  replace_all_byte zero s h = elim h [ ]
  replace_all_byte (suc fuel) [] h = refl
  replace_all_byte (suc fuel) (a ∷ s) h =
      ground (arith, replace_all_byte fuel s, replace_all_byte (suc fuel) s)

-- Replacing one byte by another, as `ping` does with blanks, maps the text.
str_replace-map :
    (c d : ℕ) (s : Bytes)
    → d ≢ c
    → str_replace (suc (length s)) s (c ∷ []) (d ∷ []) ≡ some (map (swap_byte c d) s)
str_replace-map c d s h =
    str_replace-replace_all c [] s (d ∷ []) (h, tt) (omega arith)
    ∙ ap some (replace_all_byte c d (suc (length s)) s (omega arith))
