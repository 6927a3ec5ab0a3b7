-- ===== src/Vendor/Distance.antt =====
-- `levenshtein`. The table is made row by row: of a row the cell of the empty prefix is `head`, and
-- the cells of the other prefixes of `b` are a list.
use ap_hub.Prelude.{
  ℕ, suc, ◌+◌, ◌≡◌, refl, ◌∙◌, ap, min, List, [], ◌∷◌, length, ◌==◌, if◌then◌else◌,
}
use ap_hub.Text.{Text}

abbrev pub cost : ℕ → ℕ → ℕ
cost c d = if c == d then 0 else 1

-- The cells of a row behind `left`, from the row above: `diagonal` stands over `left`.
unfoldable pub fill : ℕ → Text → ℕ → List ℕ → ℕ → List ℕ
fill c [] diagonal above left = []
fill c (d ∷ b) diagonal [] left = []
fill c (d ∷ b) diagonal (up ∷ above) left =
    let cell = min (min (up + 1) (left + 1)) (diagonal + cost c d) in cell ∷ fill c b up above cell

abbrev pub first_row : ℕ → Text → List ℕ
first_row j [] = []
first_row j (d ∷ b) = suc j ∷ first_row (suc j) b

abbrev pub last_cell : ℕ → List ℕ → ℕ
last_cell head [] = head
last_cell head (cell ∷ cells) = last_cell cell cells

unfoldable pub table_rows : Text → Text → ℕ → List ℕ → ℕ
unfolding fill
table_rows [] b head cells = last_cell head cells
table_rows (c ∷ a) b head cells = table_rows a b (suc head) (fill c b head cells (suc head))

unfoldable pub levenshtein : Text → Text → ℕ
unfolding table_rows
levenshtein a b = table_rows a b 0 (first_row 0 b)

-- The distance by its recursion on the last characters: the texts stand reversed.
abbrev pub beside : ℕ → ℕ → (Text → ℕ) → Text → ℕ
beside c size shorter [] = suc size
beside c size shorter (d ∷ t) =
    min (min (shorter (d ∷ t) + 1) (beside c size shorter t + 1)) (shorter t + cost c d)

abbrev pub distance : Text → Text → ℕ
distance [] t = length t
distance (c ∷ s) t = beside c (length s) (distance s) t

abbrev pub onto : Text → Text → Text
onto [] seen = seen
onto (c ∷ s) seen = onto s (c ∷ seen)

abbrev values : (Text → ℕ) → Text → Text → List ℕ
values f seen [] = []
values f seen (d ∷ b) = f (d ∷ seen) ∷ values f (d ∷ seen) b

fill-values :
    (c size : ℕ) (f : Text → ℕ) (seen b : Text)
    → fill c b (f seen) (values f seen b) (beside c size f seen) ≡ values (beside c size f) seen b
unfolding fill
fill-values c size f seen [] = refl
fill-values c size f seen (d ∷ b) =
    ap (λ cells. beside c size f (d ∷ seen) ∷ cells) (fill-values c size f (d ∷ seen) b)

first_row-values : (seen b : Text) → first_row (length seen) b ≡ values length seen b
first_row-values seen [] = refl
first_row-values seen (d ∷ b) =
    ap (λ cells. suc (length seen) ∷ cells) (first_row-values (d ∷ seen) b)

last_cell-values :
    (f : Text → ℕ) (seen b : Text) → last_cell (f seen) (values f seen b) ≡ f (onto b seen)
last_cell-values f seen [] = refl
last_cell-values f seen (d ∷ b) = last_cell-values f (d ∷ seen) b

distance-empty : (s : Text) → distance s [] ≡ length s
distance-empty [] = refl
distance-empty (c ∷ s) = refl

table_rows-distance :
    (a b past : Text)
    → table_rows a b (distance past []) (values (distance past) [] b)
      ≡ distance (onto a past) (onto b [])
unfolding table_rows
table_rows-distance [] b past = last_cell-values (distance past) [] b
table_rows-distance (c ∷ a) b past =
    let cells = values (distance past) [] b in
    ap (λ h. table_rows a b (suc h) (fill c b (distance past []) cells (suc h)))
      (distance-empty past)
    ∙ ap (table_rows a b (suc (length past))) (fill-values c (length past) (distance past) [] b)
    ∙ table_rows-distance a b (c ∷ past)

-- The table of `levenshtein` gives the edit distance: no text at all costs the length of the other,
-- and otherwise the last characters are dropped on one side, on the other, or on both, at the least
-- cost.
pub levenshtein-distance : (a b : Text) → levenshtein a b ≡ distance (onto a []) (onto b [])
unfolding levenshtein
levenshtein-distance a b =
    ap (table_rows a b 0) (first_row-values [] b) ∙ table_rows-distance a b []
