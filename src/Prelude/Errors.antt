-- ===== src/Prelude/Errors.antt =====
-- The exceptions that the modelled code raises, as values.
use mathlib.Core.Path.{◌≡◌, refl}

pub data Error : Type 0 where
  value_error index_error key_error integrity_error : Error
  json_error unknown_node content_too_large anchor_error attribute_error unicode_error type_error
        os_error :
      Error

pub data Result {ℓ} (X : Type ℓ) : Type ℓ where
  ok : X → Result X
  err : Error → Result X

-- A step that may raise, and what follows it.
infixl 5 ◌>>=◌
abbrev pub ◌>>=◌ {ℓ κ} : {X : Type ℓ} {Y : Type κ} → Result X → (X → Result Y) → Result Y
ok x >>= next = next x
err why >>= next = err why

-- Inversion of a successful chain.
pub >>=-eq-ok {ℓ κ} :
    {X : Type ℓ} {Y : Type κ} (m : Result X) (next : X → Result Y) {y : Y}
    → (m >>= next) ≡ ok y
    → (x : X) × (m ≡ ok x) × (next x ≡ ok y)
>>=-eq-ok (ok x) next h = (x, refl, h)
>>=-eq-ok (err why) next h = cc

pub ok-injective {ℓ} : {X : Type ℓ} {x y : X} → ok x ≡ ok y → x ≡ y
ok-injective e = cc
