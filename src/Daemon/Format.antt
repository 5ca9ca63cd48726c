-- ===== src/Daemon/Format.antt =====
-- That an option for a provider is read as it is written.
use location_service.Base.{
  ℕ, ==_iff, ◌≡◌, refl, ap, ◌∙◌, true, false, some, List, [], ◌∷◌, ◌++◌, if◌then◌else◌, length,
  contains, arith,
}
use location_service.RadioCell.Events.{◌>>=◌, map_option}
use location_service.Daemon.Options.{
  Text, equals, option_marker, scope_separator, getline, is_prefix, find_text, drop_text,
  erase_first_of, strip, put, add_line, add_option,
}

getline-append : (s t : Text) → contains s equals ≡ false → getline (s ++ (equals ∷ t)) ≡ (s, t)
unfolding getline
getline-append [] t h = refl
getline-append (c ∷ s) t h = let k = getline-append s t (ground arith) in rw k (ground arith)

getline-whole : (s : Text) → contains s equals ≡ false → getline s ≡ (s, [])
unfolding getline
getline-whole [] h = refl
getline-whole (c ∷ s) h = let k = getline-whole s (ground arith) in rw k (ground arith)

is_prefix-append : (s t : Text) → is_prefix s (s ++ t) ≡ true
is_prefix-append [] t = refl
is_prefix-append (c ∷ s) t =
    let h = is_prefix-append s t in let k = (==_iff c c).1 refl in ground arith

find_text-is_prefix : (s t : Text) → is_prefix s t ≡ true → find_text s t ≡ true
unfolding find_text
find_text-is_prefix s [] h = h
find_text-is_prefix s (c ∷ t) h = ground arith

find_text-cons : (s t : Text) (c : ℕ) → find_text s t ≡ true → find_text s (c ∷ t) ≡ true
unfolding find_text
find_text-cons s t c h = ground arith

drop_text-length : (s t : Text) → drop_text (length s) (s ++ t) ≡ t
unfolding drop_text
drop_text-length [] t = refl
drop_text-length (c ∷ s) t = drop_text-length s t

erase_first_of-append :
    (c : ℕ) (s t : Text) → erase_first_of (c ∷ s) (length (c ∷ s)) ((c ∷ s) ++ t) ≡ some t
unfolding erase_first_of
erase_first_of-append c s t =
    let h = (==_iff c c).1 refl in let k = drop_text-length (c ∷ s) t in rw (h, k) refl

contains-append :
    (s t : Text) (i : ℕ) → contains s i ≡ false → contains t i ≡ false → contains (s ++ t) i ≡ false
contains-append [] t i h k = k
contains-append (c ∷ s) t i h k = let r = contains-append s t i (ground arith) k in ground arith

-- `--provider::name`
abbrev pub key_of : Text → Text → Text
key_of provider name = option_marker ++ (provider ++ (scope_separator ++ name))

strip-key_of : (c : ℕ) (s name : Text) → strip (c ∷ s) (key_of (c ∷ s) name) ≡ some name
unfolding strip
strip-key_of c s name =
    ap
      (λ o.
        o >>= (λ k. erase_first_of (c ∷ s) (length (c ∷ s)) k >>= erase_first_of scope_separator 2))
      (erase_first_of-append 45 (45 ∷ []) ((c ∷ s) ++ (scope_separator ++ name)))
    ∙ ap (λ o. o >>= erase_first_of scope_separator 2)
        (erase_first_of-append c s (scope_separator ++ name))
    ∙ erase_first_of-append 58 (58 ∷ []) name

find_text-key_of : (provider name : Text) → find_text provider (key_of provider name) ≡ true
find_text-key_of provider name =
    let rest = provider ++ (scope_separator ++ name) in
    find_text-cons provider (45 ∷ rest) 45 (
      find_text-cons provider rest 45
        (find_text-is_prefix provider rest (is_prefix-append provider (scope_separator ++ name))))

add_line-key_of :
    (c : ℕ) (s name value : Text) (options : List (Text × Text))
    → contains value equals ≡ false
    → add_line (c ∷ s) (key_of (c ∷ s) name, value) options ≡ some (put name value options)
unfolding add_line
add_line-key_of c s name value options v =
    let key = key_of (c ∷ s) name in
    let add = λ (k : Text). put k (getline value).0 options in
    ap (λ b. if b then map_option add (strip (c ∷ s) key) else some options)
      (find_text-key_of (c ∷ s) name)
    ∙ ap (map_option add) (strip-key_of c s name)
    ∙ ap (λ (line : Text × Text). some (put name line.0 options)) (getline-whole value v)

-- An option `--provider::name=value` for a provider with a name, where none of the three has a `=`, puts the
-- value under the name into the options of that provider.
pub add_option-key_of :
    (c : ℕ) (s name value : Text) (options : List (Text × Text))
    → contains (c ∷ s) equals ≡ false
    → contains name equals ≡ false
    → contains value equals ≡ false
    → add_option (c ∷ s) (key_of (c ∷ s) name ++ (equals ∷ value)) options
      ≡ some (put name value options)
unfolding add_option
add_option-key_of c s name value options p n v =
    let no_equals =
      contains-append option_marker ((c ∷ s) ++ (scope_separator ++ name)) equals refl (
        contains-append (c ∷ s) (scope_separator ++ name) equals p
          (contains-append scope_separator name equals refl n)) in
    ap (λ line. add_line (c ∷ s) line options)
      (getline-append (key_of (c ∷ s) name) value no_equals)
    ∙ add_line-key_of c s name value options v
