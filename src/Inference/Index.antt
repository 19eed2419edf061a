-- ===== src/Inference/Index.antt =====
-- Finding the layers of a block by name: find_layer_index of src/loader.h, and TblkIndexCache with
-- cached_attn_idx and cached_mlp_idx of src/core/inference.cpp.
-- The vector of layers that the index cache remembers by its address is the number `snapshot`.
pub mod Lookup
use Prim.Native.Char.{code}
use Prim.Native.String.{String}
use terllama.Prelude.{
  ℕ, zero, suc, ◌+◌, ◌-◌, ◌/◌, ◌%◌, Bool, false, Option, none, some, List, [], ◌∷◌, ◌++◌, length,
  take, get_elem?, set, replicate, if◌then◌else◌, leb, ltb, ◌==◌,
}
use terllama.Prelude.Results.{Result, ok, err, ◌>>=◌}
use terllama.ModelFile.{same_name}
use terllama.Inference.{Error, out_of_bounds, layer_not_found, Layer}

-- The character codes of a name.
abbrev pub codes : String → List ℕ
codes String.[] = []
codes (String.◌∷◌ c s) = code c ∷ codes s

-- std::to_string of an int: ten digits are enough.
unfoldable pub digits : ℕ → ℕ → List ℕ
digits zero n = []
digits (suc more) n =
    let front = digits more (n / 10) in
    if ltb n 10 then (n + 48) ∷ [] else front ++ (n % 10 + 48) ∷ []

unfoldable pub to_string : ℕ → List ℕ
to_string n = digits 10 n

-- "model.layers." + std::to_string(layer_idx) + "." + suffix
unfoldable pub layer_name : ℕ → List ℕ → List ℕ
layer_name layer_idx suffix = codes "model.layers." ++ (to_string layer_idx ++ (46 ∷ suffix))

unfoldable pub index_from : ℕ → List Layer → List ℕ → Option ℕ
index_from i [] name = none
index_from i (l ∷ layers) name =
    let rest = index_from (suc i) layers name in if same_name l.name name then some i else rest

abbrev pub or_missing : Option ℕ → Result Error ℕ
or_missing none = err layer_not_found
or_missing (some i) = ok i

unfoldable pub find_layer_index : List Layer → List ℕ → Result Error ℕ
find_layer_index layers name = or_missing (index_from 0 layers name)

pub record AttnIndex : Type 0 where
  pub q : ℕ
  pub k : ℕ
  pub v : ℕ
  pub o : ℕ

pub record MlpIndex : Type 0 where
  pub g : ℕ
  pub u : ℕ
  pub d : ℕ

-- TblkIndexCache. `none` is an entry of -1s, which is not resolved yet.
pub record IndexCache : Type 0 where
  pub owner : Option ℕ
  pub attn : List (Option AttnIndex)
  pub mlp : List (Option MlpIndex)

-- std::vector::resize with a value for new elements.
abbrev pub resize : {A : Type 0} → ℕ → A → List A → List A
resize n a xs = take n xs ++ replicate (n - length xs) a

unfoldable pub attn_names : List Layer → ℕ → Result Error AttnIndex
attn_names layers layer_idx = do
  q ← find_layer_index layers (layer_name layer_idx (codes "self_attn.q_proj"))
  k ← find_layer_index layers (layer_name layer_idx (codes "self_attn.k_proj"))
  v ← find_layer_index layers (layer_name layer_idx (codes "self_attn.v_proj"))
  o ← find_layer_index layers (layer_name layer_idx (codes "self_attn.o_proj"))
  ok (record { q = q; k = k; v = v; o = o })

unfoldable pub mlp_names : List Layer → ℕ → Result Error MlpIndex
mlp_names layers layer_idx = do
  g ← find_layer_index layers (layer_name layer_idx (codes "mlp.gate_proj"))
  u ← find_layer_index layers (layer_name layer_idx (codes "mlp.up_proj"))
  d ← find_layer_index layers (layer_name layer_idx (codes "mlp.down_proj"))
  ok (record { g = g; u = u; d = d })

abbrev pub owned_by : ℕ → Option ℕ → Bool
owned_by snapshot none = false
owned_by snapshot (some n) = n == snapshot

-- The caches of another vector of layers are dropped.
unfoldable pub adopt : ℕ → IndexCache → IndexCache
adopt snapshot c =
    if owned_by snapshot c.owner then c else record { owner = some snapshot; attn = []; mlp = [] }

abbrev pub both_resized : ℕ → IndexCache → IndexCache
both_resized n c = record c { attn = resize n none c.attn; mlp = resize n none c.mlp }

unfoldable pub grow_attn : ℕ → IndexCache → IndexCache
grow_attn layer_idx c = if leb (length c.attn) layer_idx then both_resized (suc layer_idx) c else c

unfoldable pub grow_mlp : ℕ → IndexCache → IndexCache
grow_mlp layer_idx c = if leb (length c.mlp) layer_idx then both_resized (suc layer_idx) c else c

-- A failed lookup throws, and leaves the entry as it was.
abbrev pub keep_attn : IndexCache → ℕ → Result Error AttnIndex → IndexCache × Result Error AttnIndex
keep_attn c layer_idx (err e) = (c, err e)
keep_attn c layer_idx (ok a) = (record c { attn = set c.attn layer_idx (some a) }, ok a)

abbrev pub resolve_attn :
    List Layer → ℕ → IndexCache → Option (Option AttnIndex) → IndexCache × Result Error AttnIndex
resolve_attn layers layer_idx c none = (c, err out_of_bounds)
resolve_attn layers layer_idx c (some (some a)) = (c, ok a)
resolve_attn layers layer_idx c (some none) = keep_attn c layer_idx (attn_names layers layer_idx)

unfoldable pub cached_attn_idx :
    ℕ → List Layer → ℕ → IndexCache → IndexCache × Result Error AttnIndex
cached_attn_idx snapshot layers layer_idx c =
    let ready = grow_attn layer_idx (adopt snapshot c) in
    resolve_attn layers layer_idx ready (get_elem? ready.attn layer_idx)

abbrev pub keep_mlp : IndexCache → ℕ → Result Error MlpIndex → IndexCache × Result Error MlpIndex
keep_mlp c layer_idx (err e) = (c, err e)
keep_mlp c layer_idx (ok m) = (record c { mlp = set c.mlp layer_idx (some m) }, ok m)

abbrev pub resolve_mlp :
    List Layer → ℕ → IndexCache → Option (Option MlpIndex) → IndexCache × Result Error MlpIndex
resolve_mlp layers layer_idx c none = (c, err out_of_bounds)
resolve_mlp layers layer_idx c (some (some m)) = (c, ok m)
resolve_mlp layers layer_idx c (some none) = keep_mlp c layer_idx (mlp_names layers layer_idx)

-- What cached_mlp_idx does once the owner is right.
unfoldable pub own_mlp_idx : List Layer → ℕ → IndexCache → IndexCache × Result Error MlpIndex
own_mlp_idx layers layer_idx c =
    let ready = grow_mlp layer_idx c in
    resolve_mlp layers layer_idx ready (get_elem? ready.mlp layer_idx)

abbrev pub after_attn :
    List Layer → ℕ → IndexCache × Result Error AttnIndex → IndexCache × Result Error MlpIndex
after_attn layers layer_idx (c, err e) = (c, err e)
after_attn layers layer_idx (c, ok a) = own_mlp_idx layers layer_idx c

unfoldable pub cached_mlp_idx : ℕ → List Layer → ℕ → IndexCache → IndexCache × Result Error MlpIndex
cached_mlp_idx snapshot layers layer_idx c =
    if owned_by snapshot c.owner
    then own_mlp_idx layers layer_idx c
    else after_attn layers layer_idx (cached_attn_idx snapshot layers layer_idx c)
