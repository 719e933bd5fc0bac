-- ===== src/Value.antt =====
-- The values of the dicts that the detectors build and the JSON that they read, over an
-- abstract type `R` of floats.
use aibom_webhook_service.Base.{ℕ, String, Bool, true, false, not, Option, ◌==◌}
use aibom_webhook_service.Base.{[], ◌∷◌}
use aibom_webhook_service.Base.Dict.{Dict}
use aibom_webhook_service.Base.Int.{ℤ, is_zero}

mutual
  pub data Value (R : Type 0) : Type 0 where
    null : Value R
    bool : Bool → Value R
    int : ℤ → Value R
    float : R → Value R
    text : String → Value R
    arr : Items R → Value R
    obj : Fields R → Value R

  pub data Items (R : Type 0) : Type 0 where
    nil : Items R
    cons : Value R → Items R → Items R

  pub data Fields (R : Type 0) : Type 0 where
    end : Fields R
    field : String → Value R → Fields R → Fields R

-- What the program uses of Python's `float` and `json`: `none` stands for an exception.
pub record PyFloat (R : Type 0) : Type 0 where
  -- `float(s)`
  pub parse : String → Option R
  -- `math.isfinite(f)`
  pub is_finite : R → Bool
  -- `f.is_integer()`
  pub is_integer : R → Bool
  -- `int(f)`
  pub trunc : R → Option ℤ
  -- `f * n`
  pub scale : R → ℕ → R
  -- `f == 0`
  pub is_zero_float : R → Bool
  -- `json.loads(s)`
  pub loads : String → Option (Value R)

abbrev pub to_fields : {R : Type 0} → Dict (Value R) → Fields R
to_fields [] = end
to_fields ((k, v) ∷ d) = field k v (to_fields d)

-- `bool(v)`
unfoldable pub truthy : {R : Type 0} → PyFloat R → Value R → Bool
truthy F null = false
truthy F (bool b) = b
truthy F (int n) = not (is_zero n)
truthy F (float r) = not (F.is_zero_float r)
truthy F (text s) = not (s == "")
truthy F (arr nil) = false
truthy F (arr (cons x xs)) = true
truthy F (obj end) = false
truthy F (obj (field k v fs)) = true
