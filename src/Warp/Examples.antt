-- ===== src/Warp/Examples.antt =====
-- The theorems on warp at concrete inputs.
use vwarp.Prelude.{◌≡◌, refl, true, false, [], ◌∷◌, ◌++◌, none, some, inl, replicate}
use vwarp.Text.{codes}
use vwarp.Warp.Key.{generate_private_key, generate_private_key-clamped}
use vwarp.Warp.Account.{
  ApiCall, Identity, Store, World, load_or_create_identity, load_or_create_identity-again,
}

abbrev registered : Identity
registered = record {
  private_key = [];
  id = codes "i";
  token = codes "t";
  license = codes "free";
  account = [];
  peers = codes "p" ∷ [];
}

abbrev made : Identity
made = record registered { private_key = 0 ∷ (replicate 30 7 ++ (71 ∷ [])) }

-- A service that registers the identity, and a library that writes it under one text.
abbrev world : World
world = record {
  random = some (replicate 32 7);
  key_text = λ key. key;
  public_text = λ key. key;
  register_with = λ public. some registered;
  update = λ token id license. false;
  get = λ token id. none;
  encode = λ i. codes "json";
  decode = λ text. some made;
  can_clear = true;
  can_create = true;
  can_write = true;
  broken = [];
}

abbrev stored : Store
stored = record { file = some (codes "json"); calls = ApiCall.register ∷ [] }

first_run :
    load_or_create_identity world [] (record { file = none; calls = [] }) ≡ (some made, stored)
unfolding load_or_create_identity vwarp.Warp.Account.or_make vwarp.Warp.Account.read_file
    vwarp.Warp.Account.make_identity vwarp.Warp.Account.◌>>=◌ vwarp.Warp.Account.create_identity
    generate_private_key vwarp.Warp.Key.clamped vwarp.Warp.Key.generate_key vwarp.Warp.Key.new_key
    vwarp.Text.text_eq vwarp.Warp.Account.save_identity vwarp.Warp.Account.written
    vwarp.Warp.Account.renewed vwarp.Warp.Key.clamp vwarp.Warp.Key.clear_low vwarp.Warp.Key.fix_high
first_run = refl

load_or_create_identity-again_example :
    load_or_create_identity world [] stored ≡ (some made, stored)
load_or_create_identity-again_example =
    load_or_create_identity-again world [] (record { file = none; calls = [] }) stored made refl
      first_run (λ e. cc) (inl refl)
