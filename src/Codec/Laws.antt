-- ===== src/Codec/Laws.antt =====
-- What it takes for a codec to read back what it has written, and that codecs made of such codecs do.
use location_service.Base.{◌≡◌, sym, ap, ◌∙◌, some, List, [], ◌∷◌, ◌++◌}
use mathlib.Core.List.{append_assoc, append-nil}
use location_service.Codec.Message.{Bus}
use location_service.Codec.Build.{Codec, ◌>>=◌, pair, members, in_structure}

-- The codec writes `a` as some arguments and reads `a` from a message that goes on with them.
pub record Carries {bus : Bus} {A : Type 0} (c : Codec bus A) (a : A) : Type 0 where
  pub args : List bus.Arg
  pub written : (w : bus.Writer) → bus.content (c.encode a w) ≡ bus.content w ++ args
  pub is_read :
      (r : bus.Reader) (rest : List bus.Arg)
      → bus.left r ≡ args ++ rest
      → (s : bus.Reader) × (c.decode r ≡ some (a, s)) × (bus.left s ≡ rest)

module _ {bus : Bus} {A B : Type 0} (c : Codec bus A) (d : Codec bus B) where
  pub pair-Carries : (a : A) (b : B) → Carries c a → Carries d b → Carries (pair c d) (a, b)
  pair-Carries a b h k = record {
    args = h.args ++ k.args;
    written = λ w.
        k.written (c.encode a w)
        ∙ (ap (λ xs. xs ++ k.args) (h.written w) ∙ append_assoc (bus.content w) h.args k.args);
    is_read = λ r rest e.
        let (s, p, q) = h.is_read r (k.args ++ rest) (e ∙ append_assoc h.args k.args rest) in
        let (t, u, v) = k.is_read s rest q in
        (
          t,
          ap (λ o. o >>= (λ x. d.decode x.1 >>= (λ y. some ((x.0, y.0), y.1)))) p
              ∙ ap (λ o. o >>= (λ y. some ((a, y.0), y.1))) u,
          v,
        );
  }

module _ {bus : Bus} {A B : Type 0} (split : A → B) (join : B → A) (c : Codec bus B) where
  pub members-Carries :
      (a : A) → join (split a) ≡ a → Carries c (split a) → Carries (members split join c) a
  members-Carries a back h = record {
    args = h.args;
    written = h.written;
    is_read = λ r rest e.
        let (s, p, q) = h.is_read r rest e in
        (s, ap (λ o. o >>= (λ b. some (join b.0, b.1))) p ∙ ap (λ x. some (x, s)) back, q);
  }

module _ {bus : Bus} {A : Type 0} (c : Codec bus A) where
  unfoldable pub structure-Carries : (a : A) → Carries c a → Carries (in_structure c) a
  structure-Carries a h = record {
    args = bus.structure h.args ∷ [];
    written = λ w.
        bus.content-close_structure (c.encode a (bus.open_sub w)) w
        ∙ ap (λ xs. bus.content w ++ (bus.structure xs ∷ []))
            (h.written (bus.open_sub w) ∙ ap (λ xs. xs ++ h.args) (bus.content-open w));
    is_read = λ r rest e.
        let (sub, s, p, q, l) = bus.structure_left r h.args rest e in
        let (t, u, v) = h.is_read sub [] (q ∙ sym (append-nil h.args)) in
        (
          s,
          ap (λ o. o >>= (λ x. c.decode x.0 >>= (λ y. some (y.0, x.1)))) p
              ∙ ap (λ o. o >>= (λ y. some (y.0, s))) u,
          l,
        );
  }

-- The whole of a message.
pub read-written :
    {bus : Bus} {A : Type 0} (c : Codec bus A) (a : A)
    → Carries c a
    → (s : bus.Reader) × (c.decode (bus.reader (c.encode a bus.empty)) ≡ some (a, s))
      × (bus.left s ≡ [])
read-written {bus = bus} c a h = h.is_read (bus.reader (c.encode a bus.empty)) [] (
    bus.left-reader _
    ∙ (h.written bus.empty ∙ (ap (λ xs. xs ++ h.args) bus.content-empty ∙ sym (append-nil h.args))))
