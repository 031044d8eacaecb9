-- ===== src/Udt/Outcome.antt =====
-- What a parse returns: libs/libkv8/src/UdtSchemaParser.cpp reports a false result with a text in
-- `errbuf` or `err`, here a constructor for each text. `out_of_fuel` has no counterpart in the code.
use kv8_metrics.Prelude.{
  ℕ, ◌≤◌, ◌≡◌, ◌≢◌, refl, Bool, true, false, Option, none, some, length, if◌then◌else◌,
}
use kv8_metrics.Prelude.Bytes.{Bytes}

pub data SchemaError : Type 0 where
  empty_schema expected_quote unterminated_string expected_number invalid_number : SchemaError
  expected_char : (want got offset : ℕ) → SchemaError
  unterminated : (bracket : ℕ) → SchemaError
  -- `errbuf` as it was: empty
  no_text : SchemaError
  end_of_object end_of_fields missing_field_key missing_name missing_fields : SchemaError
  unknown_type : Bytes → SchemaError

pub data Outcome (A : Type 0) : Type 0 where
  done : A → Outcome A
  failed : SchemaError → Outcome A
  out_of_fuel : Outcome A

unfoldable pub is_done : {A : Type 0} → Outcome A → Bool
is_done (done a) = true
is_done (failed e) = false
is_done out_of_fuel = false

-- A `Parser A` reads an `A` at the current position, and returns it with the input behind it.
abbrev pub Parser : Type 0 → Type 0
Parser A = Bytes → Outcome (A × Bytes)

abbrev pub pure : {A : Type 0} → A → Parser A
pure a s = done (a, s)

abbrev pub bind : {A B : Type 0} → Outcome A → (A → Outcome B) → Outcome B
bind (done a) f = f a
bind (failed e) f = failed e
bind out_of_fuel f = out_of_fuel

abbrev pub from_option : {A : Type 0} → SchemaError → Option A → Outcome A
from_option e none = failed e
from_option e (some a) = done a

infixl 5 ◌>>=◌ ◌>>◌
abbrev pub ◌>>=◌ : {A B : Type 0} → Parser A → (A → Parser B) → Parser B
p >>= f = λ s. bind (p s) λ (a, rest). f a rest

abbrev pub ◌>>◌ : {A B : Type 0} → Parser A → Parser B → Parser B
p >> q = p >>= λ _. q

abbrev pub run : {A : Type 0} → Bytes → Parser A → Outcome (A × Bytes)
run s p = p s

-- The run kept within its fuel, and where it read something, at most `n` bytes are left.
pub data Leaves {A : Type 0} (n : ℕ) : Outcome (A × Bytes) → Type 0 where
  left : {a : A} {s : Bytes} → length s ≤ n → Leaves n (done (a, s))
  gave_up : {e : SchemaError} → Leaves n (failed e)

pub Leaves-out_of_fuel :
    {A : Type 0} {n : ℕ} {r : Outcome (A × Bytes)} → Leaves n r → r ≢ out_of_fuel
Leaves-out_of_fuel (left h) = cc
Leaves-out_of_fuel gave_up = cc

pub Leaves-bind :
    {A B : Type 0} {n m : ℕ} {r : Outcome (A × Bytes)} (f : A × Bytes → Outcome (B × Bytes))
    → Leaves n r
    → ((a : A) (s : Bytes) → length s ≤ n → Leaves m (f (a, s)))
    → Leaves m (bind r f)
Leaves-bind f (left {a} {s} h) k = k a s h
Leaves-bind f gave_up k = gave_up

pub Leaves-if :
    {A : Type 0} {n : ℕ} (b : Bool) {x y : Outcome (A × Bytes)}
    → Leaves n x
    → Leaves n y
    → Leaves n (if b then x else y)
Leaves-if true hx hy = hx
Leaves-if false hx hy = hy

pub Leaves-parser_if :
    {A : Type 0} {n : ℕ} {s : Bytes} (b : Bool) (p q : Parser A)
    → Leaves n (p s)
    → Leaves n (q s)
    → Leaves n ((if b then p else q) s)
Leaves-parser_if true p q hp hq = hp
Leaves-parser_if false p q hp hq = hq

pub Leaves-from_option :
    {A : Type 0} (n : ℕ) (e : SchemaError) (o : Option (A × Bytes))
    → ((a : A) (s : Bytes) → o ≡ some (a, s) → length s ≤ n)
    → Leaves n (from_option e o)
Leaves-from_option n e none h = gave_up
Leaves-from_option n e (some (a, s)) h = left (h a s refl)

-- The next step is a result that takes no input.
pub Leaves-known_bind :
    {A B : Type 0} {n : ℕ} (f : B → Outcome (A × Bytes)) (r : Outcome B)
    → r ≢ out_of_fuel
    → ((b : B) → Leaves n (f b))
    → Leaves n (bind r f)
Leaves-known_bind f (done b) ne k = k b
Leaves-known_bind f (failed e) ne k = gave_up
Leaves-known_bind f out_of_fuel ne k = absurd (ne refl)

pub bind-ne-out_of_fuel :
    {A B : Type 0} {n : ℕ} {r : Outcome (A × Bytes)} (f : A × Bytes → Outcome B)
    → Leaves n r
    → ((a : A) (s : Bytes) → f (a, s) ≢ out_of_fuel)
    → bind r f ≢ out_of_fuel
bind-ne-out_of_fuel f (left {a} {s} h) k = k a s
bind-ne-out_of_fuel f gave_up k = cc

-- A successful chain has a successful first step.
pub bind-eq-done :
    {A B : Type 0} (r : Outcome A) (f : A → Outcome B) {b : B}
    → bind r f ≡ done b
    → (a : A) × (r ≡ done a) × (f a ≡ done b)
bind-eq-done (done a) f h = (a, refl, h)
bind-eq-done (failed e) f h = cc
bind-eq-done out_of_fuel f h = cc
