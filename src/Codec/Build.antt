-- ===== src/Codec/Build.antt =====
-- Codecs, and codecs made of codecs.
use location_service.Base.{Option, none, some}
use location_service.Codec.Message.{Bus}

-- `Codec<A>`: `encode_argument` and `decode_argument`, the latter with the reader that it leaves.
pub record Codec (bus : Bus) (A : Type 0) : Type 0 where
  pub encode : A → bus.Writer → bus.Writer
  pub decode : bus.Reader → Option (A × bus.Reader)

infixr 20 ◌>>=◌
abbrev pub ◌>>=◌ : {A B : Type 0} → Option A → (A → Option B) → Option B
none >>= f = none
some a >>= f = f a

module _ {bus : Bus} {A B : Type 0} where
  -- Two arguments, one after the other.
  abbrev pub pair : Codec bus A → Codec bus B → Codec bus (A × B)
  pair c d = record {
    encode = λ p w. d.encode p.1 (c.encode p.0 w);
    decode = λ r. c.decode r >>= (λ a. d.decode a.1 >>= (λ b. some ((a.0, b.0), b.1)));
  }

  -- A type whose members are written one after the other.
  abbrev pub members : (A → B) → (B → A) → Codec bus B → Codec bus A
  members split join c = record {
    encode = λ a w. c.encode (split a) w;
    decode = λ r. c.decode r >>= (λ b. some (join b.0, b.1));
  }

module _ {bus : Bus} {A : Type 0} where
  -- `open_structure`, `close_structure` and `pop_structure`.
  abbrev pub in_structure : Codec bus A → Codec bus A
  in_structure c = record {
    encode = λ a w. bus.close_structure (c.encode a (bus.open_sub w)) w;
    decode = λ r. bus.pop_structure r >>= (λ p. c.decode p.0 >>= (λ a. some (a.0, p.1)));
  }
