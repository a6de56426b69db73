-- ===== src/Warp/Account.antt =====
-- warp/account.go: the identity that is stored in a directory, made on the first run. The service, the
-- file system and the JSON library are parameters.
use vwarp.Prelude.{
  ℕ, ◌≡◌, ◌≢◌, refl, ap, ◌∙◌, ◌⊎◌, inl, inr, Bool, true, false, ◌&&◌, not, List, [], ◌∷◌, Option,
  none, some, if◌then◌else◌, arith,
}
use mathlib.Core.Path.{subst}
use vwarp.Text.{text_eq, text_eq_iff}
use vwarp.Warp.Key.{generate_private_key}

-- `Identity`, as far as it is used. The account is its license, and the rest of it.
pub record Identity : Type 0 where
  pub private_key : List ℕ
  pub id : List ℕ
  pub token : List ℕ
  pub license : List ℕ
  pub account : List ℕ
  pub peers : List (List ℕ)

-- A call of the service.
pub data ApiCall : Type 0 where
  register update_account get_account : ApiCall

-- The file, `none` if it is missing, and the calls so far.
pub record Store : Type 0 where
  pub file : Option (List ℕ)
  pub calls : List ApiCall

-- What the service and the libraries give. `broken` is what a failed write leaves in the file.
pub record World : Type 0 where
  pub random : Option (List ℕ)
  pub key_text : List ℕ → List ℕ
  pub public_text : List ℕ → List ℕ
  pub register_with : List ℕ → Option Identity
  pub update : List ℕ → List ℕ → List ℕ → Bool
  pub get : List ℕ → List ℕ → Option (List ℕ × List ℕ)
  pub encode : Identity → List ℕ
  pub decode : List ℕ → Option Identity
  pub can_clear : Bool
  pub can_create : Bool
  pub can_write : Bool
  pub broken : List ℕ

-- An error is `none`.
abbrev Step : Type 0 → Type 0
Step A = Store → Option A × Store

module _ {A B : Type 0} where
  abbrev continue : Option A → (A → Step B) → Step B
  continue none f s = (none, s)
  continue (some a) f s = f a s

  infixl 10 ◌>>=◌
  unfoldable pub ◌>>=◌ : Step A → (A → Step B) → Step B
  ◌>>=◌ m f s = let (r, s') = m s in continue r f s'

abbrev give : {A : Type 0} → Option A → Step A
give r s = (r, s)

call : {A : Type 0} → ApiCall → Option A → Step A
call c r s = (r, record s { calls = c ∷ s.calls })

check : Bool → Option (Unit {0})
check true = some tt
check false = none

with_peers : List (List ℕ) → Identity → Option Identity
with_peers [] i = none
with_peers (p ∷ ps) i = some i

decoded : Option Identity → Option Identity
unfolding with_peers
decoded none = none
decoded (some i) = with_peers i.peers i

unfoldable pub read_file : World → Option (List ℕ) → Option Identity
unfolding decoded
read_file w none = none
read_file w (some text) = decoded (w.decode text)

-- `LoadIdentity`.
unfoldable pub load_identity : World → Step Identity
load_identity w s = (read_file w s.file, s)

-- `saveIdentity`: `os.Create` empties the file before the identity is written.
unfoldable pub written : Bool → Bool → World → Identity → Step (Unit {0})
written false can_write w i s = (none, s)
written true true w i s = (some tt, record s { file = some (w.encode i) })
written true false w i s = (none, record s { file = some w.broken })

unfoldable pub save_identity : World → Identity → Step (Unit {0})
save_identity w i s = written w.can_create w.can_write w i s

-- The license of the options, and the account that the service then gives.
unfoldable pub take_license : World → List ℕ → Identity → Step Identity
unfolding call check
take_license w license i = do
  updated ← call update_account (check (w.update i.token i.id license))
  account ← call get_account (w.get i.token i.id)
  give (some (record i { license = account.0; account = account.1 }))

-- `CreateIdentity`.
unfoldable pub create_identity : World → List ℕ → Step Identity
unfolding call
create_identity w license = do
  key ← give (generate_private_key w.random)
  i ← call register (w.register_with (w.public_text key))
  licensed ← if text_eq license [] then give (some i) else take_license w license i
  give (some (record licensed { private_key = w.key_text key }))

-- `RemoveAll` and `MkdirAll`, then the new identity, stored.
unfoldable pub make_identity : World → List ℕ → Step Identity
unfolding check
make_identity w license s =
    if not w.can_clear
    then (none, s)
    else (do i ← create_identity w license; saved ← save_identity w i; give (some i))
        (record s { file = none })

unfoldable pub or_make : World → List ℕ → Option Identity → Step Identity
or_make w license none s = make_identity w license s
or_make w license (some i) s = (some i, s)

-- The license of the options replaces another one.
unfoldable pub renewed : World → List ℕ → Identity → Step Identity
renewed w license i =
    if not (text_eq license []) && not (text_eq i.license license)
    then (do
      licensed ← take_license w license i
      saved ← save_identity w licensed
      give (some licensed))
    else give (some i)

-- `LoadOrCreateIdentity`.
unfoldable pub load_or_create_identity : World → List ℕ → Step Identity
load_or_create_identity w license s =
    let (r, s') = or_make w license (read_file w s.file) s in continue r (renewed w license) s'

-- What is returned is what the file holds.
Stored : World → Option Identity × Store → Type 0
Stored w (none, s) = Unit
Stored w (some i, s) = (read_file w s.file ≡ some i) ⊎ (s.file ≡ some (w.encode i))

module _ (w : World) where
  bind-Stored :
      {A : Type 0} (m : Step A) (f : A → Step Identity) (s : Store)
      → ((a : A) (s' : Store) → Stored w (f a s'))
      → Stored w ((m >>= f) s)
  unfolding ◌>>=◌
  bind-Stored {A = A} m f s h = continued (m s).0 (m s).1
    where
      continued : (r : Option A) (s' : Store) → Stored w (continue r f s')
      continued none s' = unfold Stored in tt
      continued (some a) s' = h a s'

  if-Stored :
      (b : Bool) (m k : Option Identity × Store)
      → Stored w m
      → Stored w k
      → Stored w (if b then m else k)
  if-Stored true m k hm hk = hm
  if-Stored false m k hm hk = hk

  saved-Stored :
      (i : Identity) (s : Store) → Stored w ((save_identity w i >>= λ u. give (some i)) s)
  unfolding save_identity ◌>>=◌ Stored written
  saved-Stored i s = chosen w.can_create w.can_write
    where
      chosen :
          (b c : Bool)
          → Stored w (continue (written b c w i s).0 (λ u. give (some i)) (written b c w i s).1)
      chosen false c = tt
      chosen true true = inr refl
      chosen true false = tt

  make_identity-Stored : (license : List ℕ) (s : Store) → Stored w (make_identity w license s)
  unfolding make_identity Stored
  make_identity-Stored license s =
      if-Stored (not w.can_clear) (none, s) _ tt
        (bind-Stored (create_identity w license) _ (record s { file = none })
          λ i s'. saved-Stored i s')

  or_make-Stored :
      (license : List ℕ) (r : Option Identity) (s : Store)
      → read_file w s.file ≡ r
      → Stored w (or_make w license r s)
  unfolding or_make Stored
  or_make-Stored license none s e = make_identity-Stored license s
  or_make-Stored license (some i) s e = inl e

  renewed-Stored :
      (license : List ℕ) (i : Identity) (s : Store)
      → Stored w (some i, s)
      → Stored w (renewed w license i s)
  unfolding renewed
  renewed-Stored license i s h =
      chosen (not (text_eq license []) && not (text_eq i.license license))
    where
      chosen :
          (b : Bool)
          → Stored w (
              (if b
                  then (take_license w license i >>= λ licensed.
                      save_identity w licensed >>= λ u. give (some licensed))
                  else give (some i))
                s)
      chosen true =
          bind-Stored (take_license w license i) _ s λ licensed s'. saved-Stored licensed s'
      chosen false = h

  load_or_create_identity-Stored :
      (license : List ℕ) (s : Store) → Stored w (load_or_create_identity w license s)
  unfolding load_or_create_identity
  load_or_create_identity-Stored license s =
      continued _ _ (or_make-Stored license (read_file w s.file) s refl)
    where
      continued :
          (r : Option Identity) (s' : Store)
          → Stored w (r, s')
          → Stored w (continue r (renewed w license) s')
      continued none s' h = h
      continued (some i) s' h = renewed-Stored license i s' h

with_peers-some : (peers : List (List ℕ)) (i : Identity) → peers ≢ [] → with_peers peers i ≡ some i
unfolding with_peers
with_peers-some [] i h = absurd (h refl)
with_peers-some (p ∷ ps) i h = refl

reread :
    (w : World) (i : Identity) (s : Store)
    → w.decode (w.encode i) ≡ some i
    → i.peers ≢ []
    → Stored w (some i, s)
    → read_file w s.file ≡ some i
unfolding Stored read_file decoded
reread w i s json some_peer (inl e) = e
reread w i s json some_peer (inr e) =
    ap (read_file w) e ∙ ap decoded json ∙ with_peers-some i.peers i some_peer

otherwise : (b : Bool) (m k : Step Identity) (s : Store) → b ≡ false → (if b then m else k) s ≡ k s
otherwise true m k s e = cc
otherwise false m k s e = refl

-- An identity with the license that is asked for is not changed.
kept :
    (w : World) (license : List ℕ) (i : Identity) (s : Store)
    → (license ≡ []) ⊎ (i.license ≡ license)
    → renewed w license i s ≡ (some i, s)
unfolding renewed
kept w license i s (inl e) =
    let same : text_eq license [] ≡ true = (text_eq_iff license []).1 e in
    otherwise (not (text_eq license []) && not (text_eq i.license license)) _ (give (some i)) s
      (ground arith)
kept w license i s (inr e) =
    let same : text_eq i.license license ≡ true = (text_eq_iff i.license license).1 e in
    otherwise (not (text_eq license []) && not (text_eq i.license license)) _ (give (some i)) s
      (ground arith)

-- If the JSON library reads back the identity that was returned as it was written, and this identity has a
-- peer and its license is the one asked for if one is asked for: the next run with the same license returns it again,
-- calls the service not at all and leaves the file as it is.
pub load_or_create_identity-again :
    (w : World) (license : List ℕ) (s s' : Store) (i : Identity)
    → w.decode (w.encode i) ≡ some i
    → load_or_create_identity w license s ≡ (some i, s')
    → i.peers ≢ []
    → (license ≡ []) ⊎ (i.license ≡ license)
    → load_or_create_identity w license s' ≡ (some i, s')
unfolding load_or_create_identity renewed or_make text_eq
load_or_create_identity-again w license s s' i json first some_peer settled =
    let stored : Stored w (some i, s') =
      subst (Stored w) first (load_or_create_identity-Stored w license s) in
    let loaded : read_file w s'.file ≡ some i = reread w i s' json some_peer stored in
    ap (λ r. continue (or_make w license r s').0 (renewed w license) (or_make w license r s').1)
      loaded
    ∙ kept w license i s' settled
