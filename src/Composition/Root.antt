-- ===== src/Composition/Root.antt =====
-- `compose_fastapi_app_with_registrars` of llm_agent/llm_agent/di/fastapi_composition.py. The environment and
-- the import of modules are parameters.
use Prim.Native.Char.{code}
use Prim.Native.String.{◌++◌}
use python_agent_with_idp.Prelude.{ℕ, ◌==◌, ◌≡◌, String, if◌then◌else◌, Option, none, some}
use python_agent_with_idp.Error.{other, service_not_found}
use python_agent_with_idp.Exec.{Outcome, returned, raised}
use python_agent_with_idp.Exec.Results.{◌>>=◌, or_raise}
use python_agent_with_idp.TokenScript.{default_for}
use python_agent_with_idp.Composition.{
  Instance, Svcs, ApplicationDiConfig, FastApi, create_app_with_selected_di,
}
use python_agent_with_idp.Composition.Registrars.{get_production_registrars}
use python_agent_with_idp.Composition.Production.{IsDocumented, production_fails}

-- What the split of the rest gives, with the character in front of it.
unfoldable pub in_front : ℕ → String → String → Option (String × String) → Option (String × String)
in_front dot before rest none = if dot == b'.' then some ("", rest) else none
in_front dot before rest (some (a, b)) = some (before ++ a, b)

-- s.rsplit(".", 1), none where it has one part
unfoldable pub rsplit_dot : String → Option (String × String)
unfolding in_front
rsplit_dot String.[] = none
rsplit_dot (String.◌∷◌ c s) = in_front (code c) (String.◌∷◌ c String.[]) s (rsplit_dot s)

-- os.getenv, and getattr(importlib.import_module(module_name), function_name) with the outcome of a call
-- of what it gives.
pub record Environment {I : Type 0} (svcs : Svcs I) : Type 0 where
  pub getenv : String → Option String
  pub import_provider : String → String → Outcome (Outcome (ApplicationDiConfig svcs))

module _ {I : Type 0} (svcs : Svcs I) (env : Environment svcs) where
  unfoldable pub compose_fastapi_app_with_registrars : Outcome (FastApi svcs)
  unfolding default_for rsplit_dot create_app_with_selected_di
  compose_fastapi_app_with_registrars = do
    let configured_registrar_provider_path =
        default_for "llm_agent.di.app_registrar_providers.get_production_registrars"
          (env.getenv "DI_REGISTRAR_PROVIDER")
    (module_name, function_name) ←
        or_raise (other "not enough values to unpack")
          (rsplit_dot configured_registrar_provider_path)
    registrar_provider ← env.import_provider module_name function_name
    app_registrars ← registrar_provider
    create_app_with_selected_di svcs app_registrars

-- With a container library that behaves as documented, where the environment names no registrar
-- provider and the import of the default one gives the production registrars,
-- `compose_fastapi_app_with_registrars` raises ServiceNotFoundError for the consumer.
pub default_composition_fails :
    {F : Type 0} (svcs : Svcs (Instance F)) (decimal : ℕ → ℕ → F) (env : Environment svcs)
    → IsDocumented svcs
    → env.getenv "DI_REGISTRAR_PROVIDER" ≡ none
    → env.import_provider "llm_agent.di.app_registrar_providers" "get_production_registrars"
      ≡ returned (returned (get_production_registrars svcs decimal))
    → compose_fastapi_app_with_registrars svcs env ≡ raised (service_not_found "Consumer")
unfolding compose_fastapi_app_with_registrars ◌>>=◌ or_raise
default_composition_fails svcs decimal env documented unset imported =
    rw (unset, imported) (production_fails svcs decimal documented)
