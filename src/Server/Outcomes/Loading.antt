-- ===== src/Server/Outcomes/Loading.antt =====
-- What loading the model again does to the server's state (src/server/handlers.cpp).
use terllama.Prelude.{◌≡◌, refl, Bool, true, false, Option, none, some, if◌then◌else◌}
use terllama.Inference.Block.{Model}
use terllama.Server.{Env, State, Refusal, model_load_failed, model_not_loaded, ensure_loaded}

module _ {F : Type 0} where
  -- What ensure_loaded leaves.
  pub record LoadedFrom (s : State F) (r : State F × Option Refusal) : Type 0 where
    pub same_slots : r.0.active_requests ≡ s.active_requests
    pub same_limit : r.0.memory_limit ≡ s.memory_limit
    pub is_loaded : r.1 ≡ none → r.0.loaded ≡ true

  loaded_result :
      (s : State F) (m : Option (Model F)) (loaded has_dir : Bool)
      → s.loaded ≡ loaded
      → LoadedFrom s (
          if loaded
          then (s, none)
          else if has_dir
          then elim m [
            | none ↦ (s, some model_load_failed)
            | some m' ↦ (record s { loaded = true; model = m' }, none)
          ]
          else (s, some model_not_loaded))
  loaded_result s m true has_dir e = record {
    same_slots = refl;
    same_limit = refl;
    is_loaded = λ h. e;
  }
  loaded_result s none false true e = record {
    same_slots = refl;
    same_limit = refl;
    is_loaded = λ h. absurd (cc h);
  }
  loaded_result s (some m) false true e = record {
    same_slots = refl;
    same_limit = refl;
    is_loaded = λ h. refl;
  }
  loaded_result s m false false e = record {
    same_slots = refl;
    same_limit = refl;
    is_loaded = λ h. absurd (cc h);
  }

  pub ensure_loaded-LoadedFrom : (env : Env F) (s : State F) → LoadedFrom s (ensure_loaded env s)
  unfolding ensure_loaded
  ensure_loaded-LoadedFrom env s = loaded_result s env.load_model s.loaded s.has_dir refl
