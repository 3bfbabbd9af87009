-- ===== src/Identity.antt =====
-- identity.go: the host ID of a machine and the file of its key. SHA-256, the key formats and the file
-- system are parameters.
use tp.Prelude.{
  ℕ, zero, suc, ◌+◌, ◌*◌, ◌/◌, ◌%◌, List, [], ◌∷◌, ◌++◌, map, Bool, true, false, not, Option, none,
  some, ◌==◌, if◌then◌else◌, take, get_or,
}
use tp.Prelude.Text.{Text, codes}
pub mod HostId
mod Runs

abbrev pub crockford : Text
crockford = codes "0123456789ABCDEFGHJKMNPQRSTVWXYZ"

abbrev pub host_id_len : ℕ
host_id_len = 12

-- The bits of a byte, the highest first.
abbrev bits_of : ℕ → List ℕ
bits_of b =
    b / 128 % 2
    ∷ b / 64 % 2
    ∷ b / 32 % 2
    ∷ b / 16 % 2
    ∷ b / 8 % 2
    ∷ b / 4 % 2
    ∷ b / 2 % 2
    ∷ b % 2
    ∷ []

unfoldable pub bits : List ℕ → List ℕ
bits [] = []
bits (b ∷ bs) = bits_of b ++ bits bs

-- base32 without padding: a digit for each five bits, the last filled up with zeros.
unfoldable pub digits : List ℕ → List ℕ
digits [] = []
digits (a ∷ []) = a * 16 ∷ []
digits (a ∷ b ∷ []) = (a * 16 + b * 8) ∷ []
digits (a ∷ b ∷ c ∷ []) = (a * 16 + b * 8 + c * 4) ∷ []
digits (a ∷ b ∷ c ∷ d ∷ []) = (a * 16 + b * 8 + c * 4 + d * 2) ∷ []
digits (a ∷ b ∷ c ∷ d ∷ e ∷ rest) = (a * 16 + b * 8 + c * 4 + d * 2 + e) ∷ digits rest

-- `crockford.EncodeToString`
unfoldable pub encode_crockford : List ℕ → Text
unfolding bits digits
encode_crockford bs = map (λ n. get_or crockford n 0) (digits (bits bs))

-- On the SHA-256 sum as a parameter.
unfoldable pub host_id : (List ℕ → List ℕ) → List ℕ → Text
unfolding encode_crockford
host_id sha256 spki = take host_id_len (encode_crockford (sha256 spki))

-- What `os.Stat` says of the key file.
pub data Stat : Type 0 where
  missing : Stat
  unreadable : Stat
  -- The permission bits.
  found : ℕ → Stat

-- The files and the packages that the key passes through; a key is the bytes of an Ed25519 key.
pub record KeyFiles : Type 1 where
  pub Key : Type 0
  pub stat : Stat
  -- ReadFile, pem.Decode, ParsePKCS8PrivateKey and the Ed25519 assertion.
  pub read : Option (List ℕ)
  pub decode_pem : List ℕ → Option (List ℕ)
  pub parse_key : List ℕ → Option (Option Key)
  -- GenerateKey, then MarshalPKCS8PrivateKey and EncodeToMemory, then WriteFile.
  pub generate : Option Key
  pub marshal : Key → Option (List ℕ)
  pub write_ok : Bool

-- The errors of `loadOrCreateKey`, by their messages.
pub data KeyError : Type 0 where
  io bad_permissions not_pem not_ed25519 : KeyError

-- The key, and the file that was written with mode 0600, if one was.
pub data KeyResult (K : Type 0) : Type 0 where
  loaded : K → KeyResult K
  stored : K → List ℕ → KeyResult K
  refused : KeyError → KeyResult K

module _ (f : KeyFiles) where
  abbrev written : f.Key → Option (List ℕ) → KeyResult f.Key
  written k none = refused io
  written k (some pem) = if f.write_ok then stored k pem else refused io

  abbrev generated : Option f.Key → KeyResult f.Key
  generated none = refused io
  generated (some k) = written k (f.marshal k)

  -- `createKey`
  unfoldable pub create_key : KeyResult f.Key
  create_key = generated f.generate

  abbrev key_parsed : Option (Option f.Key) → KeyResult f.Key
  key_parsed none = refused io
  key_parsed (some none) = refused not_ed25519
  key_parsed (some (some k)) = loaded k

  abbrev pem_decoded : Option (List ℕ) → KeyResult f.Key
  pem_decoded none = refused not_pem
  pem_decoded (some der) = key_parsed (f.parse_key der)

  abbrev file_read : Option (List ℕ) → KeyResult f.Key
  file_read none = refused io
  file_read (some pem) = pem_decoded (f.decode_pem pem)

  -- `perm & 0o077` are the last six bits.
  abbrev stat_checked : Stat → KeyResult f.Key
  stat_checked missing = create_key
  stat_checked unreadable = refused io
  stat_checked (found perm) =
      if not (perm % 64 == 0) then refused bad_permissions else file_read f.read

  unfoldable pub load_or_create_key : KeyResult f.Key
  unfolding create_key
  load_or_create_key = stat_checked f.stat
