-- ===== src/Server/Auth/Keys.antt =====
-- The key pair for tokens, `_load_or_generate_jwt_keys` of server/app/auth.py.
use aiss_waf_server.Prelude.{◌≡◌, refl, Option, none, some}
use aiss_waf_server.Prelude.Text.{Text}

-- The two files.
pub record Disk : Type 0 where
  pub private_pem : Option Text
  pub public_pem : Option Text

pub record KeyPair : Type 0 where
  pub private_key : Text
  pub public_key : Text

-- Where an OSError ends the writing: at the folder or opening the private file, opening the public
-- file, or after both, if there is one.
pub data Persisting : Type 0 where
  at_private at_public complete : Persisting

unfoldable pub persist : Persisting → KeyPair → Disk → Disk
persist at_private k d = d
persist at_public k d = record d { private_pem = some k.private_key }
persist complete k d = record { private_pem = some k.private_key; public_pem = some k.public_key }

-- The pair is read only if both files are there, and then they can be read.
unfoldable pub load : Option Text → Option Text → Persisting → KeyPair → Disk → KeyPair × Disk
unfolding persist
load (some private_pem) (some public_pem) p fresh d =
    (record { private_key = private_pem; public_key = public_pem }, d)
load none public_pem p fresh d = (fresh, persist p fresh d)
load (some private_pem) none p fresh d = (fresh, persist p fresh d)

unfoldable pub load_or_generate : Persisting → (fresh : KeyPair) → Disk → KeyPair × Disk
unfolding load
load_or_generate p fresh d = load d.private_pem d.public_pem p fresh d

load-complete :
    (private_pem public_pem : Option Text) (fresh later : KeyPair) (d : Disk) (p : Persisting)
    → d.private_pem ≡ private_pem
    → d.public_pem ≡ public_pem
    → (load_or_generate p later (load private_pem public_pem complete fresh d).1).0
      ≡ (load private_pem public_pem complete fresh d).0
unfolding load_or_generate load persist
load-complete (some a) (some b) fresh later d p e f = rw (e, f, load) refl
load-complete none b fresh later d p e f = refl
load-complete (some a) none fresh later d p e f = refl

-- Where nothing fails, the next start has the same pair, whatever it generates.
pub load_or_generate-kept :
    (fresh later : KeyPair) (d : Disk) (p : Persisting)
    → (load_or_generate p later (load_or_generate complete fresh d).1).0
      ≡ (load_or_generate complete fresh d).0
unfolding load_or_generate
load_or_generate-kept fresh later d p =
    load-complete d.private_pem d.public_pem fresh later d p refl refl

-- Where only an old public key is there and writing the new one fails, the next start has the new
-- private key with the old public key.
pub load_or_generate-torn :
    (fresh later : KeyPair) (old : Text) (p : Persisting)
    → (load_or_generate p later
        (load_or_generate at_public fresh
          (record { private_pem = none; public_pem = some old })).1).0
      ≡ record { private_key = fresh.private_key; public_key = old }
unfolding load_or_generate load persist
load_or_generate-torn fresh later old p = refl
