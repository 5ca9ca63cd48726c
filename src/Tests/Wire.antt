-- ===== src/Tests/Wire.antt =====
-- Messages as lists of arguments.
use Prim.Native.String.{String}
use location_service.Base.{
  ℕ, ◌≡◌, refl, ap, ◌∙◌, Bool, true, false, Option, none, some, List, [], ◌∷◌, ◌++◌,
}
use location_service.Base.Int.{ℤ}
use location_service.Codec.Message.{Bus}

mutual
  pub data Arg : Type 0 where
    boolean : Bool → Arg
    uint32 : ℕ → Arg
    int32 : ℤ → Arg
    int64 : ℤ → Arg
    floating_point : ℕ → Arg
    string : String → Arg
    structure : Args → Arg
    array : Args → Arg

  pub data Args : Type 0 where
    no_args : Args
    more_args : Arg → Args → Args

abbrev pub to_args : List Arg → Args
to_args [] = no_args
to_args (x ∷ xs) = more_args x (to_args xs)

abbrev pub from_args : Args → List Arg
from_args no_args = []
from_args (more_args x xs) = x ∷ from_args xs

pub from-to_args : (xs : List Arg) → from_args (to_args xs) ≡ xs
from-to_args [] = refl
from-to_args (x ∷ xs) = ap (λ ys. x ∷ ys) (from-to_args xs)

abbrev pub pop_boolean : List Arg → Option (Bool × List Arg)
pop_boolean (boolean b ∷ rest) = some (b, rest)
pop_boolean _ = none

abbrev pub pop_uint32 : List Arg → Option (ℕ × List Arg)
pop_uint32 (uint32 n ∷ rest) = some (n, rest)
pop_uint32 _ = none

abbrev pub pop_int32 : List Arg → Option (ℤ × List Arg)
pop_int32 (int32 n ∷ rest) = some (n, rest)
pop_int32 _ = none

abbrev pub pop_int64 : List Arg → Option (ℤ × List Arg)
pop_int64 (int64 n ∷ rest) = some (n, rest)
pop_int64 _ = none

abbrev pub pop_floating_point : List Arg → Option (ℕ × List Arg)
pop_floating_point (floating_point n ∷ rest) = some (n, rest)
pop_floating_point _ = none

abbrev pub pop_string : List Arg → Option (String × List Arg)
pop_string (string s ∷ rest) = some (s, rest)
pop_string _ = none

abbrev pub pop_structure : List Arg → Option (List Arg × List Arg)
pop_structure (structure xs ∷ rest) = some (from_args xs, rest)
pop_structure _ = none

abbrev pub pop_array : List Arg → Option (List Arg × List Arg)
pop_array (array xs ∷ rest) = some (from_args xs, rest)
pop_array _ = none

abbrev pub at_end : List Arg → Bool
at_end [] = true
at_end (x ∷ xs) = false

-- Popping the argument that is there.
pub popped :
    {A : Type 0} (pop : List Arg → Option (A × List Arg)) (a : A) (x : Arg) (rest : List Arg)
    → pop (x ∷ rest) ≡ some (a, rest)
    → (r : List Arg) → r ≡ x ∷ rest
    → (s : List Arg) × (pop r ≡ some (a, s)) × (s ≡ rest)
popped pop a x rest h r e = (rest, ap pop e ∙ h, refl)

pub popped_sub :
    (pop : List Arg → Option (List Arg × List Arg)) (xs ys : List Arg) (x : Arg) (rest : List Arg)
    → pop (x ∷ rest) ≡ some (ys, rest)
    → ys ≡ xs
    → (r : List Arg) → r ≡ x ∷ rest
    → (sub s : List Arg) × (pop r ≡ some (sub, s)) × (sub ≡ xs) × (s ≡ rest)
popped_sub pop xs ys x rest h k r e = (ys, rest, ap pop e ∙ h, k, refl)

-- Numbers in place of the floating point numbers of both sizes.
abbrev pub wire : Bus
wire = record {
  Double = ℕ;
  Float = ℕ;
  to_double = λ x. x;
  to_float = λ x. x;
  to_float-to_double = λ f. refl;
  Arg = Arg;
  boolean = boolean;
  uint32 = uint32;
  int32 = int32;
  int64 = int64;
  floating_point = floating_point;
  string = string;
  structure = λ xs. structure (to_args xs);
  array = λ xs. array (to_args xs);
  Writer = List Arg;
  content = λ w. w;
  empty = [];
  content-empty = refl;
  push_boolean = λ b w. w ++ (boolean b ∷ []);
  content-boolean = λ b w. refl;
  push_uint32 = λ b w. w ++ (uint32 b ∷ []);
  content-uint32 = λ b w. refl;
  push_int32 = λ b w. w ++ (int32 b ∷ []);
  content-int32 = λ b w. refl;
  push_int64 = λ b w. w ++ (int64 b ∷ []);
  content-int64 = λ b w. refl;
  push_floating_point = λ b w. w ++ (floating_point b ∷ []);
  content-floating_point = λ b w. refl;
  push_string = λ b w. w ++ (string b ∷ []);
  content-string = λ b w. refl;
  open_sub = λ w. [];
  content-open = λ w. refl;
  close_structure = λ sub w. w ++ (structure (to_args sub) ∷ []);
  content-close_structure = λ sub w. refl;
  close_array = λ sub w. w ++ (array (to_args sub) ∷ []);
  content-close_array = λ sub w. refl;
  Reader = List Arg;
  left = λ r. r;
  reader = λ w. w;
  left-reader = λ w. refl;
  pop_boolean = pop_boolean;
  boolean_left = λ r b rest e. popped pop_boolean b (boolean b) rest refl r e;
  pop_uint32 = pop_uint32;
  uint32_left = λ r b rest e. popped pop_uint32 b (uint32 b) rest refl r e;
  pop_int32 = pop_int32;
  int32_left = λ r b rest e. popped pop_int32 b (int32 b) rest refl r e;
  pop_int64 = pop_int64;
  int64_left = λ r b rest e. popped pop_int64 b (int64 b) rest refl r e;
  pop_floating_point = pop_floating_point;
  floating_point_left = λ r b rest e. popped pop_floating_point b (floating_point b) rest refl r e;
  pop_string = pop_string;
  string_left = λ r b rest e. popped pop_string b (string b) rest refl r e;
  pop_structure = pop_structure;
  structure_left = λ r xs rest e.
      popped_sub pop_structure xs (from_args (to_args xs)) (structure (to_args xs)) rest refl
        (from-to_args xs) r e;
  pop_array = pop_array;
  array_left = λ r xs rest e.
      popped_sub pop_array xs (from_args (to_args xs)) (array (to_args xs)) rest refl
        (from-to_args xs) r e;
  at_end = at_end;
  at_end-nil = λ r e. ap at_end e;
  at_end-cons = λ r x xs e. ap at_end e;
}
