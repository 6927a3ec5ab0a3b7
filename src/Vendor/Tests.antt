-- ===== src/Vendor/Tests.antt =====
-- Two spellings of one vendor. Scores are counted in whole numbers.
use ap_hub.Prelude.{
  ℕ, ◌-◌, ◌/◌, max, ◌≡◌, refl, true, false, none, is_some, List, [], ◌∷◌, leb, ltb, Memᴰ,
}
use ap_hub.Text.{Text, codes}
use ap_hub.Vendor.Distance.{levenshtein, distance, onto, levenshtein-distance}
use ap_hub.Vendor.Resolve.{
  Scores, VendorCandidate, exact, normalized_name, exact_via, name_key, normalize, resolve_vendor,
  route_txn_type, purchase,
}
use ap_hub.Vendor.Unambiguous.{unambiguous_exact}

kitten : levenshtein (codes "kitten") (codes "sitting") ≡ 3
unfolding levenshtein
kitten = refl

levenshtein-distance_example :
    levenshtein (codes "ab") (codes "b") ≡ distance (onto (codes "ab") []) (onto (codes "b") [])
levenshtein-distance_example = levenshtein-distance (codes "ab") (codes "b")

abbrev whole : Scores ℕ
whole = record {
  of_nat = λ n. n;
  sub = λ a b. a - b;
  div = λ a b. a / b;
  larger = max;
  lt = ltb;
  le = leb;
}

abbrev same : Text → Text
same text = text

normalizes : normalize same (codes "acme, inc.") ≡ codes "acme"
unfolding normalize
normalizes = refl

abbrev acme : VendorCandidate
acme = record { source_key = codes "acme inc"; target_id = codes "7"; target_name = codes "acme" }

abbrev other_acme : VendorCandidate
other_acme = record acme { source_key = codes "the acme" }

abbrev candidates : List VendorCandidate
candidates = acme ∷ other_acme ∷ []

resolves :
    resolve_vendor whole same (codes "acme") [] candidates 1
    ≡ exact acme normalized_name none 1 false
unfolding resolve_vendor
resolves = refl

other_matches : is_some (exact_via same (name_key same (codes "acme")) [] other_acme) ≡ true
unfolding exact_via name_key
other_matches = refl

unambiguous_exact_example : other_acme.target_id ≡ acme.target_id
unambiguous_exact_example =
    unambiguous_exact whole same (codes "acme") [] candidates 1 acme normalized_name none 1 resolves
      other_acme (Memᴰ.tail (Memᴰ.head refl)) other_matches

paid_receipt : route_txn_type "receipt" "AP" false ≡ purchase
unfolding route_txn_type
paid_receipt = refl
