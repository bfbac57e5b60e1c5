-- ===== src/Contracts/Subdomains/Shape.antt =====
-- What normalizeSubdomainLabel of packages/contracts/src/subdomains.js makes of any text.
use hello_deploy.Prelude.{
  ℕ, zero, suc, ◌≤◌, ◌<◌, ◌≡◌, refl, ap, ◌∙◌, arith, ◌⊎◌, inl, inr, Bool, true, false, ◌&&◌, not,
  leb, leb_iff, ◌==◌, if◌then◌else◌, Bool-cases, [], ◌∷◌, all, length, take, length-take, Text,
  text_eq,
}
use hello_deploy.Contracts.Subdomains.{
  is_label_character, starts_well, ends_well, to_lower_case, trim_start, trim_end, hyphenate,
  strip_start, strip_end, normalize_subdomain_label, is_valid_subdomain_label,
}

abbrev pub ends_in_hyphen : Text → Bool
ends_in_hyphen [] = false
ends_in_hyphen (c ∷ []) = c == b'-'
ends_in_hyphen (c ∷ d ∷ ds) = ends_in_hyphen (d ∷ ds)

all-hyphenate : (b : Bool) (t : Text) → all is_label_character (hyphenate b t) ≡ true
unfolding hyphenate
all-hyphenate b [] = refl
all-hyphenate b (c ∷ cs) = ground (arith, all-hyphenate false cs, all-hyphenate true cs)

all-strip_start :
    (t : Text) → all is_label_character t ≡ true → all is_label_character (strip_start t) ≡ true
unfolding strip_start
all-strip_start [] h = refl
all-strip_start (c ∷ cs) h = ground (arith, all-strip_start cs)

starts_well-strip_start :
    (t : Text)
    → all is_label_character t ≡ true
    → (strip_start t ≡ []) ⊎ (starts_well (strip_start t) ≡ true)
unfolding strip_start
starts_well-strip_start [] h = inl refl
starts_well-strip_start (c ∷ cs) h = ground (arith, starts_well-strip_start cs)

all-strip_end :
    (t : Text) → all is_label_character t ≡ true → all is_label_character (strip_end t) ≡ true
unfolding strip_end
all-strip_end [] h = refl
all-strip_end (c ∷ cs) h = ground (arith, all-strip_end cs)

starts_well-strip_end : (t : Text) → starts_well t ≡ true → starts_well (strip_end t) ≡ true
unfolding strip_end
starts_well-strip_end [] h = h
starts_well-strip_end (c ∷ cs) h = ground arith

ends_in_hyphen-cons :
    (c : ℕ) (s : Text)
    → ends_in_hyphen s ≡ false
    → ends_in_hyphen (if c == b'-' && text_eq s [] then [] else c ∷ s) ≡ false
unfolding text_eq
ends_in_hyphen-cons c [] h = ground arith
ends_in_hyphen-cons c (d ∷ ds) h = ground arith

ends_in_hyphen-strip_end : (t : Text) → ends_in_hyphen (strip_end t) ≡ false
unfolding strip_end
ends_in_hyphen-strip_end [] = refl
ends_in_hyphen-strip_end (c ∷ cs) =
    ends_in_hyphen-cons c (strip_end cs) (ends_in_hyphen-strip_end cs)

-- Text of label characters ends well unless it ends in a hyphen.
ends_well_of_all :
    (t : Text) → all is_label_character t ≡ true → ends_well t ≡ not (ends_in_hyphen t)
unfolding ends_well
ends_well_of_all [] h = refl
ends_well_of_all (c ∷ []) h = ground arith
ends_well_of_all (c ∷ d ∷ ds) h = ground (arith, ends_well_of_all (d ∷ ds))

all-take :
    (n : ℕ) (t : Text) → all is_label_character t ≡ true → all is_label_character (take n t) ≡ true
all-take zero t h = refl
all-take (suc n) [] h = refl
all-take (suc n) (c ∷ cs) h = ground (arith, all-take n cs)

take_short : (n : ℕ) (t : Text) → length t ≤ n → take n t ≡ t
take_short zero [] h = refl
take_short zero (c ∷ cs) h = absurd (omega arith)
take_short (suc n) [] h = refl
take_short (suc n) (c ∷ cs) h = ap (λ x. c ∷ x) (take_short n cs (omega arith))

starts_well-take : (n : ℕ) (t : Text) → starts_well t ≡ true → starts_well (take (suc n) t) ≡ true
starts_well-take n [] h = h
starts_well-take n (c ∷ cs) h = h

and_three : (a b c : Bool) → a ≡ true → b ≡ true → c ≡ true → (a && b && c) ≡ true
and_three a b c p q r = ground arith

leb-false : (n m : ℕ) → leb n m ≡ false → m < n
leb-false n m h = ground arith

cut_shape :
    (u : Text)
    → all is_label_character u ≡ true
    → (u ≡ []) ⊎ (starts_well u ≡ true)
    → ends_in_hyphen u ≡ false
    → (take 63 u ≡ [])
      ⊎ ((is_valid_subdomain_label (take 63 u) ≡ true)
          ⊎ ((ends_in_hyphen (take 63 u) ≡ true) × (63 < length u)))
unfolding is_valid_subdomain_label
cut_shape u a (inl e) n = inl (ap (take 63) e)
cut_shape u a (inr s) n = elim (Bool-cases (ends_in_hyphen (take 63 u))) [
  | inl cut ↦ elim (Bool-cases (leb (length u) 63)) [
    | inl le ↦ absurd (uncut_ends (take_short 63 u ((leb_iff (length u) 63).0 le)) cut)
    | inr gt ↦ inr (inr (cut, leb-false (length u) 63 gt))
  ]
  | inr whole ↦ inr (
      inl (
        and_three _ _ _ ((leb_iff (length (take 63 u)) 63).1 (omega (arith, length-take 63 u)))
          (starts_well-take 62 u s)
          (ends_well_of_all (take 63 u) (all-take 63 u a) ∙ ap not whole)))
]
  where
    uncut_ends : take 63 u ≡ u → ends_in_hyphen (take 63 u) ≡ true → ⊥
    uncut_ends e cut = let x : ends_in_hyphen u ≡ true = rw e at cut in cc

-- The text before the cut at 63.
abbrev pub uncut : Text → Text
uncut value =
    strip_end (strip_start (hyphenate false (to_lower_case (trim_end (trim_start value)))))

all-uncut : (value : Text) → all is_label_character (uncut value) ≡ true
all-uncut value =
    all-strip_end _
      (all-strip_start _ (all-hyphenate false (to_lower_case (trim_end (trim_start value)))))

starts_well-uncut : (value : Text) → (uncut value ≡ []) ⊎ (starts_well (uncut value) ≡ true)
unfolding strip_end
starts_well-uncut value =
    let h = hyphenate false (to_lower_case (trim_end (trim_start value))) in
    elim (starts_well-strip_start h
      (all-hyphenate false (to_lower_case (trim_end (trim_start value))))) [
        | inl e ↦ inl (ap strip_end e)
        | inr s ↦ inr (starts_well-strip_end (strip_start h) s)
      ]

-- The text that is left has at most 63 characters and is empty, or a valid label, or was cut from
-- a longer text of letters, digits and hyphens just after a hyphen; only then is it neither.
pub normalize_subdomain_label_lem :
    (value : Text)
    → let label = normalize_subdomain_label value in
      (length label ≤ 63)
      × (all is_label_character label ≡ true)
      × ((label ≡ [])
          ⊎ ((is_valid_subdomain_label label ≡ true)
              ⊎ ((ends_in_hyphen label ≡ true) × (63 < length (uncut value)))))
unfolding normalize_subdomain_label is_valid_subdomain_label
normalize_subdomain_label_lem value =
    let u = uncut value in
    let short : length (take 63 u) ≤ 63 = omega (arith, length-take 63 u) in
    let labels = all-take 63 u (all-uncut value) in
    (
      short,
      labels,
      cut_shape u (all-uncut value) (starts_well-uncut value) (
          ends_in_hyphen-strip_end
            (strip_start (hyphenate false (to_lower_case (trim_end (trim_start value)))))),
    )
