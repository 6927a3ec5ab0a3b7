-- ===== src/Vendor/Unambiguous.antt =====
-- When `resolveVendor` returns an exact match that is not ambiguous.
use ap_hub.Prelude.{
  ℕ, ◌≡◌, refl, ◌∙◌, subst, sym, Bool, true, false, Option, none, some, is_some, List, [], ◌∷◌, any,
  length, ltb, arith, Memᴰ, Bool-cases, inl, inr,
}
use ap_hub.Text.{Text, text_eq, text_eq_sound, text_eq_refl}
use ap_hub.Vendor.Resolve.{
  Scores, VendorCandidate, VendorMatchType, VendorResolution, exact, no_match, put_target,
  targets_onto, exact_via, exact_matches, add_exact, candidates_of, best_of, scored, name_key,
  exact_result, resolve_vendor,
}

abbrev has_target : Text → VendorCandidate → Bool
has_target id c = text_eq c.target_id id

put-has :
    (c : VendorCandidate) (found : List VendorCandidate)
    → any (has_target c.target_id) (put_target c found) ≡ true
unfolding put_target
put-has c [] = rw (text_eq_refl c.target_id)
put-has c (d ∷ rest) = elim (Bool-cases (text_eq d.target_id c.target_id)) [
  | inl t ↦ rw (t, text_eq_refl c.target_id)
  | inr f ↦ rw (f, f) (put-has c rest)
]

put-keeps :
    (id : Text) (c : VendorCandidate) (found : List VendorCandidate)
    → any (has_target id) found ≡ true
    → any (has_target id) (put_target c found) ≡ true
unfolding put_target
put-keeps id c [] h = absurd (cc)
put-keeps id c (d ∷ rest) h = elim (Bool-cases (text_eq d.target_id c.target_id)) [
  | inl t ↦
      let same : c.target_id ≡ d.target_id = sym (text_eq_sound d.target_id c.target_id t) in
      rw (t, same) h
  | inr f ↦ rw f (ground (arith, h, put-keeps id c rest))
]

onto-keeps :
    (id : Text) (found cs : List VendorCandidate)
    → any (has_target id) found ≡ true
    → any (has_target id) (targets_onto found cs) ≡ true
unfolding targets_onto
onto-keeps id found [] h = h
onto-keeps id found (c ∷ cs) h = onto-keeps id (put_target c found) cs (put-keeps id c found h)

onto-has :
    (c : VendorCandidate) (found cs : List VendorCandidate)
    → Memᴰ c cs
    → any (has_target c.target_id) (targets_onto found cs) ≡ true
unfolding targets_onto
onto-has c found [] m = elim m [ ]
onto-has c found (d ∷ cs) (Memᴰ.head e) = onto-keeps c.target_id (put_target d found) cs (
    subst (λ (x : VendorCandidate). any (has_target x.target_id) (put_target d found) ≡ true)
      (sym e) (put-has d found))
onto-has c found (d ∷ cs) (Memᴰ.tail m) = onto-has c (put_target d found) cs m

-- In a list of at most one element two keys that are found are one.
one_target :
    (a b : Text) (found : List VendorCandidate)
    → ltb 1 (length found) ≡ false
    → any (has_target a) found ≡ true
    → any (has_target b) found ≡ true
    → a ≡ b
one_target a b [] short ha hb = absurd (cc)
one_target a b (d ∷ []) short ha hb =
    let left = text_eq_sound d.target_id a (ground (arith, ha)) in
    let right = text_eq_sound d.target_id b (ground (arith, hb)) in sym left ∙ right
one_target a b (d ∷ e ∷ rest) short ha hb = absurd (ground (arith, short))

add-mem :
    (c d : VendorCandidate) (o : Option VendorMatchType)
    (rest : List (VendorCandidate × VendorMatchType))
    → Memᴰ c (candidates_of rest)
    → Memᴰ c (candidates_of (add_exact d o rest))
add-mem c d none rest m = m
add-mem c d (some via) rest m = Memᴰ.tail m

add-self :
    (c : VendorCandidate) (o : Option VendorMatchType)
    (rest : List (VendorCandidate × VendorMatchType))
    → is_some o ≡ true
    → Memᴰ c (candidates_of (add_exact c o rest))
add-self c none rest h = absurd (cc)
add-self c (some via) rest h = Memᴰ.head refl

exact-mem :
    (lower : Text → Text) (key sender : Text) (cs : List VendorCandidate) (c : VendorCandidate)
    → Memᴰ c cs
    → is_some (exact_via lower key sender c) ≡ true
    → Memᴰ c (candidates_of (exact_matches lower key sender cs))
unfolding exact_matches
exact-mem lower key sender [] c m h = elim m [ ]
exact-mem lower key sender (d ∷ cs) c (Memᴰ.head e) h =
    subst
      (λ x. Memᴰ c (
        candidates_of
          (add_exact x (exact_via lower key sender x) (exact_matches lower key sender cs))))
      e (add-self c (exact_via lower key sender c) (exact_matches lower key sender cs) h)
exact-mem lower key sender (d ∷ cs) c (Memᴰ.tail m) h =
    add-mem c d (exact_via lower key sender d) (exact_matches lower key sender cs)
      (exact-mem lower key sender cs c m h)

module _ {N : Type 0} (scores : Scores N) (lower : Text → Text) where
  -- What an exact resolution that is not ambiguous says of the exact candidates.
  abbrev AllOne : List VendorCandidate → VendorResolution N → Type 0
  AllOne cs (exact first via conflicts count false) =
      (c : VendorCandidate) → Memᴰ c cs → c.target_id ≡ first.target_id
  AllOne cs _ = Unit

  result-AllOne :
      (matches : List (VendorCandidate × VendorMatchType)) (otherwise : VendorResolution N)
      → AllOne [] otherwise
      → AllOne (candidates_of matches) (exact_result matches otherwise)
  unfolding exact_result
  result-AllOne [] otherwise h = h
  result-AllOne ((first, via) ∷ rest) otherwise h =
      let cs = candidates_of ((first, via) ∷ rest) in
      elim (Bool-cases (ltb 1 (length (targets_onto [] cs)))) [
        | inl t ↦ rw t tt
        | inr f ↦ rw f λ c m.
            one_target c.target_id first.target_id (targets_onto [] cs) f (onto-has c [] cs m)
              (onto-has first [] cs (Memᴰ.head refl))
      ]

  best-AllOne :
      (threshold : N) (sorted : List (VendorCandidate × N))
      → AllOne [] (best_of scores lower threshold sorted)
  unfolding best_of
  best-AllOne threshold [] = tt
  best-AllOne threshold ((best, score) ∷ rest) = elim (Bool-cases (scores.le threshold score)) [
    | inl t ↦ rw t tt
    | inr f ↦ rw f tt
  ]

  resolve-AllOne :
      (name sender : Text) (cs : List VendorCandidate) (threshold : N)
      → AllOne
          (candidates_of (exact_matches lower (name_key lower name) sender cs))
          (resolve_vendor scores lower name sender cs threshold)
  unfolding resolve_vendor
  resolve-AllOne [] [] cs threshold = tt
  resolve-AllOne [] (d ∷ sender) cs threshold =
      result-AllOne (exact_matches lower (name_key lower []) (d ∷ sender) cs) no_match tt
  resolve-AllOne (c ∷ name) sender cs threshold =
      result-AllOne (exact_matches lower (name_key lower (c ∷ name)) sender cs)
        (best_of scores lower threshold (scored scores lower (c ∷ name) cs))
        (best-AllOne threshold (scored scores lower (c ∷ name) cs))

  -- Where `resolveVendor` returns an exact match that is not ambiguous, every candidate that matches the
  -- vendor's name or the sender's domain exactly has the target that was returned.
  pub unambiguous_exact :
      (name sender : Text) (cs : List VendorCandidate) (threshold : N) (first : VendorCandidate)
      (via : VendorMatchType) (conflicts : Option (List VendorCandidate)) (count : ℕ)
      → resolve_vendor scores lower name sender cs threshold ≡ exact first via conflicts count false
      → (c : VendorCandidate) → Memᴰ c cs
      → is_some (exact_via lower (name_key lower name) sender c) ≡ true
      → c.target_id ≡ first.target_id
  unambiguous_exact name sender cs threshold first via conflicts count e c m h =
      let key = name_key lower name in
      subst (AllOne (candidates_of (exact_matches lower key sender cs))) e
        (resolve-AllOne name sender cs threshold) c (exact-mem lower key sender cs c m h)
