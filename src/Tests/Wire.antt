-- ===== src/Tests/Wire.antt =====
-- Wire forms for the tests: a value is written in front of the rest, and read back from there.
use singularis.Prelude.{
  ℕ, zero, suc, ◌≡◌, refl, ap, sym, ◌∙◌, Option, none, some, List, [], ◌∷◌, length, Bytes, and_then,
}

pub record Wire (A : Type 0) : Type 0 where
  pub write : A → Bytes → Bytes
  pub read : Bytes → Option (A × Bytes)
  pub read-write : (a : A) (rest : Bytes) → read (write a rest) ≡ some (a, rest)

abbrev read_number : Bytes → Option (ℕ × Bytes)
read_number [] = none
read_number (n ∷ rest) = some (n, rest)

abbrev pub number : Wire ℕ
number = record { write = λ n rest. n ∷ rest; read = read_number; read-write = λ n rest. refl }

module _ {A B : Type 0} (first : Wire A) (second : Wire B) where
  abbrev read_pair : Bytes → Option ((A × B) × Bytes)
  read_pair bytes =
      and_then (first.read bytes) (λ a. and_then (second.read a.1) (λ b. some ((a.0, b.0), b.1)))

  pub read_pair-write :
      (p : A × B) (rest : Bytes)
      → read_pair (first.write p.0 (second.write p.1 rest)) ≡ some (p, rest)
  read_pair-write (a, b) rest =
      rw (first.read-write a (second.write b rest), second.read-write b rest) refl

  abbrev pub pair : Wire (A × B)
  pair = record {
    write = λ p rest. first.write p.0 (second.write p.1 rest);
    read = read_pair;
    read-write = read_pair-write;
  }

module _ {A : Type 0} (item : Wire A) where
  abbrev pub write_many : List A → Bytes → Bytes
  write_many [] rest = rest
  write_many (a ∷ items) rest = item.write a (write_many items rest)

  abbrev pub read_many : ℕ → Bytes → Option (List A × Bytes)
  read_many zero bytes = some ([], bytes)
  read_many (suc n) bytes =
      and_then (item.read bytes)
        (λ a. and_then (read_many n a.1) (λ items. some (a.0 ∷ items.0, items.1)))

  pub read_many-write :
      (items : List A) (rest : Bytes)
      → read_many (length items) (write_many items rest) ≡ some (items, rest)
  read_many-write [] rest = refl
  read_many-write (a ∷ items) rest =
      rw (item.read-write a (write_many items rest), read_many-write items rest) refl

  abbrev read_list : Bytes → Option (List A × Bytes)
  read_list [] = none
  read_list (n ∷ rest) = read_many n rest

  abbrev pub list : Wire (List A)
  list = record {
    write = λ items rest. length items ∷ write_many items rest;
    read = read_list;
    read-write = read_many-write;
  }

  abbrev write_optional : Option A → Bytes → Bytes
  write_optional none rest = 0 ∷ rest
  write_optional (some a) rest = 1 ∷ item.write a rest

  abbrev read_optional : Bytes → Option (Option A × Bytes)
  read_optional [] = none
  read_optional (zero ∷ rest) = some (none, rest)
  read_optional (suc n ∷ rest) = and_then (item.read rest) (λ a. some (some a.0, a.1))

  pub read_optional-write :
      (o : Option A) (rest : Bytes) → read_optional (write_optional o rest) ≡ some (o, rest)
  read_optional-write none rest = refl
  read_optional-write (some a) rest = rw (item.read-write a rest) refl

  abbrev pub optional : Wire (Option A)
  optional = record {
    write = write_optional;
    read = read_optional;
    read-write = read_optional-write;
  }

module _ {A B : Type 0} (form : Wire A) (to : B → A) (from : A → B)
    (from-to : (b : B) → from (to b) ≡ b) where
  abbrev read_via : Bytes → Option (B × Bytes)
  read_via bytes = and_then (form.read bytes) (λ a. some (from a.0, a.1))

  pub read_via-write : (b : B) (rest : Bytes) → read_via (form.write (to b) rest) ≡ some (b, rest)
  read_via-write b rest = rw (form.read-write (to b) rest, from-to b) refl

  -- A type that is the same items another.
  abbrev pub via : Wire B
  via = record {
    write = λ b rest. form.write (to b) rest;
    read = read_via;
    read-write = read_via-write;
  }

abbrev pub bytes : Wire Bytes
bytes = list number

module _ {A : Type 0} (form : Wire A) where
  abbrev pub print : A → Option Bytes
  print a = some (form.write a [])

  abbrev pub parse : Bytes → Option A
  parse b = and_then (form.read b) (λ a. some a.0)

  pub parse-print : (a : A) (b : Bytes) → print a ≡ some b → parse b ≡ some a
  parse-print a b h =
      ap parse (ap (unwrapped (form.write a [])) (sym h)) ∙ rw (form.read-write a []) refl
    where
      unwrapped : Bytes → Option Bytes → Bytes
      unwrapped d none = d
      unwrapped d (some x) = x
