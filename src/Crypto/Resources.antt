-- ===== src/Crypto/Resources.antt =====
-- The OpenSSL objects that a call holds, and actions that acquire and free them and may throw.
use synledger_core.Prelude.{
  runtime_error, Result, ok, err, if◌then◌else◌, Text, ℕ, zero, suc, ◌≡◌, Bool, true, false, Option,
  none, some, List, [], ◌∷◌,
}

-- How many objects are held that came from each variable of the source: message contexts, keys, the BIOs
-- `pri_bio` and `pub_bio`, buffers and elliptic-curve keys. A method makes one for each variable at most, so
-- that two objects of one kind are told apart.
pub record Held : Type 0 where
  pub contexts : ℕ
  pub keys : ℕ
  pub private_bios : ℕ
  pub public_bios : ℕ
  pub buffers : ℕ
  pub ec_keys : ℕ

pub data Resource : Type 0 where
  context key private_bio public_bio buffer ec_key : Resource

-- `none` is a fault: something is freed that is not held.
abbrev pub Action : Type 0 → Type 0
Action A = Held → Option (Result A × Held)

abbrev pub pure : {A : Type 0} → A → Action A
pure a h = some (ok a, h)

abbrev pub throw : {A : Type 0} → Text → Action A
throw message h = some (err (runtime_error message), h)

abbrev pub bind : {A B : Type 0} → Action A → (A → Action B) → Action B
bind m f h = elim (m h) [
  | none ↦ none
  | some (r, h') ↦ elim r [ ok a ↦ f a h' | err e ↦ some (err e, h') ]
]

infixl 5 ◌>>=◌ ◌>>◌
abbrev pub ◌>>=◌ : {A B : Type 0} → Action A → (A → Action B) → Action B
m >>= f = bind m f

abbrev pub ◌>>◌ : {A B : Type 0} → Action A → Action B → Action B
m >> k = bind m λ _. k

abbrev pub acquired : Resource → Held → Held
acquired context h = record h { contexts = suc h.contexts }
acquired key h = record h { keys = suc h.keys }
acquired private_bio h = record h { private_bios = suc h.private_bios }
acquired public_bio h = record h { public_bios = suc h.public_bios }
acquired buffer h = record h { buffers = suc h.buffers }
acquired ec_key h = record h { ec_keys = suc h.ec_keys }

abbrev pub released : Resource → Held → Option Held
released context h = elim h.contexts [ zero ↦ none | suc n ↦ some (record h { contexts = n }) ]
released key h = elim h.keys [ zero ↦ none | suc n ↦ some (record h { keys = n }) ]
released private_bio h = elim h.private_bios [
  | zero ↦ none
  | suc n ↦ some (record h { private_bios = n })
]
released public_bio h = elim h.public_bios [
  | zero ↦ none
  | suc n ↦ some (record h { public_bios = n })
]
released buffer h = elim h.buffers [ zero ↦ none | suc n ↦ some (record h { buffers = n }) ]
released ec_key h = elim h.ec_keys [ zero ↦ none | suc n ↦ some (record h { ec_keys = n }) ]

-- A constructor of OpenSSL, which answers with a pointer that is not null, or with null.
abbrev pub make : Resource → Bool → Action Bool
make r answer h = some (ok answer, if answer then acquired r h else h)

-- A destructor, on a pointer that is null or not; on null it does nothing.
abbrev pub free : Resource → Bool → Action (Unit {0})
free r true h = elim (released r h) [ none ↦ none | some h' ↦ some (ok tt, h') ]
free r false h = some (ok tt, h)

abbrev pub free_all : List (Resource × Bool) → Action (Unit {0})
free_all [] h = some (ok tt, h)
free_all ((r, pointer) ∷ rest) h = elim (free r pointer h) [
  | none ↦ none
  | some (_, h') ↦ free_all rest h'
]

-- `if (!condition) { free …; throw std::runtime_error(message); }`.
abbrev pub require : Bool → List (Resource × Bool) → Text → Action (Unit {0})
require true held message h = some (ok tt, h)
require false held message h = elim (free_all held h) [
  | none ↦ none
  | some (_, h') ↦ some (err (runtime_error message), h')
]

-- What `EVP_PKEY_assign_EC_KEY` does where it succeeds: the key takes the elliptic-curve key over.
abbrev pub hand_over : Resource → Action (Unit {0})
hand_over r = free r true

-- The action ends, with a result or an exception, and holds what was held before: it frees all that it
-- makes, once, and nothing else.
abbrev pub IsClean : {A : Type 0} → Option (Result A × Held) → Held → Type 0
IsClean none h = ⊥
IsClean (some (r, h')) h = h' ≡ h

-- The result of an action that holds nothing at the start.
abbrev pub nothing_held : Held
nothing_held = record {
  contexts = 0;
  keys = 0;
  private_bios = 0;
  public_bios = 0;
  buffers = 0;
  ec_keys = 0;
}
