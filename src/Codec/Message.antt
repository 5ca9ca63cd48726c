-- ===== src/Codec/Message.antt =====
-- `core::dbus::Message::Writer` and `Message::Reader`, which are not part of this repository.
use Prim.Native.String.{String}
use location_service.Base.{ℕ, ◌≡◌, Bool, true, false, Option, some, List, [], ◌∷◌, ◌++◌}
use location_service.Base.Int.{ℤ}

-- A message, a writer that adds arguments to it and a reader that takes them in their order; `none` is an
-- exception. `Double` and `Float` are the floating point numbers. What is documented of them is said by
-- `content`, the arguments that a writer has written, and `left`, those that a reader has yet to read.
pub record Bus : Type 1 where
  pub Double : Type 0
  pub Float : Type 0
  pub to_double : Float → Double
  pub to_float : Double → Float
  pub to_float-to_double : (f : Float) → to_float (to_double f) ≡ f
  pub Arg : Type 0
  pub boolean : Bool → Arg
  pub uint32 : ℕ → Arg
  pub int32 : ℤ → Arg
  pub int64 : ℤ → Arg
  pub floating_point : Double → Arg
  pub string : String → Arg
  pub structure : List Arg → Arg
  pub array : List Arg → Arg
  pub Writer : Type 0
  pub content : Writer → List Arg
  pub empty : Writer
  pub content-empty : content empty ≡ []
  pub push_boolean : Bool → Writer → Writer
  pub content-boolean :
      (b : Bool) (w : Writer) → content (push_boolean b w) ≡ content w ++ (boolean b ∷ [])
  pub push_uint32 : ℕ → Writer → Writer
  pub content-uint32 :
      (n : ℕ) (w : Writer) → content (push_uint32 n w) ≡ content w ++ (uint32 n ∷ [])
  pub push_int32 : ℤ → Writer → Writer
  pub content-int32 : (n : ℤ) (w : Writer) → content (push_int32 n w) ≡ content w ++ (int32 n ∷ [])
  pub push_int64 : ℤ → Writer → Writer
  pub content-int64 : (n : ℤ) (w : Writer) → content (push_int64 n w) ≡ content w ++ (int64 n ∷ [])
  pub push_floating_point : Double → Writer → Writer
  pub content-floating_point :
      (d : Double) (w : Writer)
      → content (push_floating_point d w) ≡ content w ++ (floating_point d ∷ [])
  pub push_string : String → Writer → Writer
  pub content-string :
      (s : String) (w : Writer) → content (push_string s w) ≡ content w ++ (string s ∷ [])
  pub open_sub : Writer → Writer
  pub content-open : (w : Writer) → content (open_sub w) ≡ []
  pub close_structure : Writer → Writer → Writer
  pub content-close_structure :
      (sub w : Writer)
      → content (close_structure sub w) ≡ content w ++ (structure (content sub) ∷ [])
  pub close_array : Writer → Writer → Writer
  pub content-close_array :
      (sub w : Writer) → content (close_array sub w) ≡ content w ++ (array (content sub) ∷ [])
  pub Reader : Type 0
  pub left : Reader → List Arg
  pub reader : Writer → Reader
  pub left-reader : (w : Writer) → left (reader w) ≡ content w
  pub pop_boolean : Reader → Option (Bool × Reader)
  pub boolean_left :
      (r : Reader) (b : Bool) (rest : List Arg)
      → left r ≡ boolean b ∷ rest
      → (s : Reader) × (pop_boolean r ≡ some (b, s)) × (left s ≡ rest)
  pub pop_uint32 : Reader → Option (ℕ × Reader)
  pub uint32_left :
      (r : Reader) (n : ℕ) (rest : List Arg)
      → left r ≡ uint32 n ∷ rest
      → (s : Reader) × (pop_uint32 r ≡ some (n, s)) × (left s ≡ rest)
  pub pop_int32 : Reader → Option (ℤ × Reader)
  pub int32_left :
      (r : Reader) (n : ℤ) (rest : List Arg)
      → left r ≡ int32 n ∷ rest
      → (s : Reader) × (pop_int32 r ≡ some (n, s)) × (left s ≡ rest)
  pub pop_int64 : Reader → Option (ℤ × Reader)
  pub int64_left :
      (r : Reader) (n : ℤ) (rest : List Arg)
      → left r ≡ int64 n ∷ rest
      → (s : Reader) × (pop_int64 r ≡ some (n, s)) × (left s ≡ rest)
  pub pop_floating_point : Reader → Option (Double × Reader)
  pub floating_point_left :
      (r : Reader) (d : Double) (rest : List Arg)
      → left r ≡ floating_point d ∷ rest
      → (s : Reader) × (pop_floating_point r ≡ some (d, s)) × (left s ≡ rest)
  pub pop_string : Reader → Option (String × Reader)
  pub string_left :
      (r : Reader) (t : String) (rest : List Arg)
      → left r ≡ string t ∷ rest
      → (s : Reader) × (pop_string r ≡ some (t, s)) × (left s ≡ rest)
  pub pop_structure : Reader → Option (Reader × Reader)
  pub structure_left :
      (r : Reader) (xs rest : List Arg)
      → left r ≡ structure xs ∷ rest
      → (sub s : Reader) × (pop_structure r ≡ some (sub, s)) × (left sub ≡ xs) × (left s ≡ rest)
  pub pop_array : Reader → Option (Reader × Reader)
  pub array_left :
      (r : Reader) (xs rest : List Arg)
      → left r ≡ array xs ∷ rest
      → (sub s : Reader) × (pop_array r ≡ some (sub, s)) × (left sub ≡ xs) × (left s ≡ rest)
  pub at_end : Reader → Bool
  pub at_end-nil : (r : Reader) → left r ≡ [] → at_end r ≡ true
  pub at_end-cons : (r : Reader) (x : Arg) (xs : List Arg) → left r ≡ x ∷ xs → at_end r ≡ false
