-- ===== src/Mapping/Taxed.antt =====
-- When a tax is written, told without the code's tests: its subtotal, and its balance in each mode.
use ap_hub.Prelude.{
  ◌≡◌, refl, sym, subst, true, false, ◌↔◌, String, List, Option, none, some, str_eq, arith,
}
use ap_hub.Mapping.Amount.{Amounts}
use ap_hub.Mapping.Tax.{
  TaxMode, exclusive, inclusive, CanonicalTax, RawTax, missing, number, text, structured,
  TaxReconciliation, tax_ok, truthy, text_or, normalize_tax, sum_from, reconciles, subtotal_of,
  evaluate_structured, evaluate_tax,
}

module _ {N : Type 0} (amounts : Amounts N) where
  -- The stated subtotal, and only where none is stated the sum of the lines.
  pub data Subtotal (t : CanonicalTax N) (lines : List N) : N → Type 0 where
    stated : (s : N) → t.subtotal ≡ some s → Subtotal t lines (amounts.num s)
    summed : t.subtotal ≡ none → Subtotal t lines (sum_from amounts amounts.zero lines)

  -- Exclusive: subtotal and tax together are the total, within the tolerance. Inclusive: the
  -- subtotal is the total already, and the tax is positive and below it, within the tolerance.
  pub data Balanced (tol subtotal tax total : N) : TaxMode → Type 0 where
    net :
        amounts.le (amounts.abs (amounts.sub (amounts.add subtotal tax) total)) tol ≡ true
        → Balanced tol subtotal tax total exclusive
    gross :
        amounts.le (amounts.abs (amounts.sub subtotal total)) tol ≡ true
        → amounts.lt amounts.zero tax ≡ true
        → amounts.lt tax (amounts.add total tol) ≡ true
        → Balanced tol subtotal tax total inclusive

  -- The tax `t` can be written, and `written` and `r` are what is passed on.
  pub record Writable (tol : N) (t : CanonicalTax N) (lines : List N) (total : N)
      (written : CanonicalTax N) (r : TaxReconciliation N) : Type 0 where
    pub subtotal : N
    pub of_lines : Subtotal t lines subtotal
    pub matters : amounts.lt (amounts.abs (amounts.num t.amount)) tol ≡ false
    pub code : String
    pub coded : t.code ≡ some code
    pub not_empty : str_eq code "" ≡ false
    pub balanced : Balanced tol subtotal (amounts.num t.amount) (amounts.num total) t.mode
    pub is_written : written ≡ record t { amount = amounts.num t.amount; subtotal = some subtotal }
    pub is_recorded : r ≡ record {
      mode = t.mode;
      tax_amount = amounts.num t.amount;
      line_sum = subtotal;
      total = amounts.num total;
      code = code;
      ok = true;
    }

  Subtotal-unique :
      (t : CanonicalTax N) (lines : List N) (subtotal : N)
      → Subtotal t lines subtotal
      → subtotal_of amounts t (sum_from amounts amounts.zero lines) ≡ subtotal
  unfolding subtotal_of
  Subtotal-unique t lines subtotal (stated s e) = rw e
  Subtotal-unique t lines subtotal (summed e) = rw e

  subtotal_of-Subtotal :
      (t : CanonicalTax N) (lines : List N) (s : Option N)
      → t.subtotal ≡ s
      → Subtotal t lines (subtotal_of amounts t (sum_from amounts amounts.zero lines))
  subtotal_of-Subtotal t lines none e =
      subst (Subtotal t lines) (sym (Subtotal-unique t lines _ (summed e))) (summed e)
  subtotal_of-Subtotal t lines (some s) e =
      subst (Subtotal t lines) (sym (Subtotal-unique t lines _ (stated s e))) (stated s e)

  reconciles-Balanced :
      (tol : N) (mode : TaxMode) (subtotal tax total : N)
      → reconciles amounts tol mode subtotal tax total ≡ true
      → Balanced tol subtotal tax total mode
  unfolding reconciles
  reconciles-Balanced tol exclusive subtotal tax total e = net e
  reconciles-Balanced tol inclusive subtotal tax total e =
      gross (ground (arith, e)) (ground (arith, e)) (ground (arith, e))

  Balanced-reconciles :
      (tol : N) (mode : TaxMode) (subtotal tax total : N)
      → Balanced tol subtotal tax total mode
      → reconciles amounts tol mode subtotal tax total ≡ true
  unfolding reconciles
  Balanced-reconciles tol exclusive subtotal tax total (net e) = e
  Balanced-reconciles tol inclusive subtotal tax total (gross a b c) = rw (a, b, c)

  -- The last branch of the code, told as an inversion.
  structured_ok :
      (tol : N) (t : CanonicalTax N) (line_sum total : N) (written : CanonicalTax N)
      (r : TaxReconciliation N)
      → evaluate_structured amounts tol t line_sum total ≡ tax_ok written r
      → (amounts.lt (amounts.abs (amounts.num t.amount)) tol ≡ false)
        × (truthy t.code ≡ true)
        × (reconciles amounts tol t.mode
              (subtotal_of amounts t line_sum)
              (amounts.num t.amount)
              total
            ≡ true)
        × (written ≡ record t {
          amount = amounts.num t.amount;
          subtotal = some (subtotal_of amounts t line_sum);
        })
        × (r ≡ record {
          mode = t.mode;
          tax_amount = amounts.num t.amount;
          line_sum = subtotal_of amounts t line_sum;
          total = total;
          code = text_or "" t.code;
          ok = true;
        })
  unfolding evaluate_structured
  structured_ok tol t line_sum total written r e = ground arith

  coded : (code : Option String) → truthy code ≡ true → code ≡ some (text_or "" code)
  coded none h = cc
  coded (some code) h = refl

  not_blank : (code : Option String) → truthy code ≡ true → str_eq (text_or "" code) "" ≡ false
  not_blank none h = cc
  not_blank (some code) h = ground arith

  ok-Writable :
      (tol : N) (t : CanonicalTax N) (lines : List N) (total : N) (written : CanonicalTax N)
      (r : TaxReconciliation N)
      → evaluate_tax amounts tol (structured t) lines total ≡ tax_ok written r
      → Writable tol t lines total written r
  unfolding evaluate_tax normalize_tax
  ok-Writable tol t lines total written r e =
      let (matters, code, reconciled, is_written, is_recorded) =
        structured_ok tol t (sum_from amounts amounts.zero lines) (amounts.num total) written r e in
      record {
        subtotal = subtotal_of amounts t (sum_from amounts amounts.zero lines);
        of_lines = subtotal_of-Subtotal t lines t.subtotal refl;
        matters = matters;
        code = text_or "" t.code;
        coded = coded t.code code;
        not_empty = not_blank t.code code;
        balanced = reconciles-Balanced tol t.mode _ _ _ reconciled;
        is_written = is_written;
        is_recorded = is_recorded;
      }

  truthy_code :
      (code : Option String) (name : String)
      → code ≡ some name
      → str_eq name "" ≡ false
      → (truthy code ≡ true) × (text_or "" code ≡ name)
  truthy_code code name e h = (rw (e, h), rw e)

  Writable-ok :
      (tol : N) (t : CanonicalTax N) (lines : List N) (total : N) (written : CanonicalTax N)
      (r : TaxReconciliation N)
      → Writable tol t lines total written r
      → evaluate_tax amounts tol (structured t) lines total ≡ tax_ok written r
  unfolding evaluate_tax normalize_tax evaluate_structured
  Writable-ok tol t lines total written r w =
      let same = Subtotal-unique t lines w.subtotal w.of_lines in
      let ok = Balanced-reconciles tol t.mode w.subtotal _ _ w.balanced in
      let (code, name) = truthy_code t.code w.code w.coded w.not_empty in
      rw (same, w.matters, code, ok, name, sym w.is_written, sym w.is_recorded)

  -- A tax is written exactly where it was structured, its amount is not negligible, it has a code
  -- that is not empty, and it balances with the total in the mode that it states, where the subtotal
  -- is the stated one, and the sum of the lines only where none is stated. What is passed on is the
  -- source's tax with its amount and this subtotal, and the figures that were compared.
  pub evaluate_tax_iff :
      (tol : N) (raw : RawTax N) (lines : List N) (total : N) (written : CanonicalTax N)
      (r : TaxReconciliation N)
      → (evaluate_tax amounts tol raw lines total ≡ tax_ok written r)
        ↔ ((t : CanonicalTax N) × (raw ≡ structured t) × Writable tol t lines total written r)
  unfolding evaluate_tax normalize_tax
  evaluate_tax_iff tol raw lines total written r = (
    was_written raw,
    λ (t, e, w).
        subst (λ x. evaluate_tax amounts tol x lines total ≡ tax_ok written r) (sym e)
          (Writable-ok tol t lines total written r w),
  )
    where
      was_written :
          (x : RawTax N)
          → evaluate_tax amounts tol x lines total ≡ tax_ok written r
          → (t : CanonicalTax N) × (x ≡ structured t) × Writable tol t lines total written r
      was_written missing e = absurd (ground arith)
      was_written (number n) e = absurd (ground arith)
      was_written (text s) e = absurd (ground arith)
      was_written (structured t) e = (t, refl, ok-Writable tol t lines total written r e)
