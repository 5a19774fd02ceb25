-- ===== src/Legacy/Qrpc/Objects.antt =====
-- javascript/legacy/qrpc/src/qrpc.ts: `ObjectManager` and `ManagedObject`.
use qtalk.Base.{
  Bool, true, false, List, [], ◌∷◌, ◌++◌, Option, none, some, length, drop, if◌then◌else◌,
}
use qtalk.Base.Throws.{Result, ok, err}
use qtalk.Rpc.Text.{Text, units, slash, starts_with, split, last}
use qtalk.Rpc.Call.{strip}
use qtalk.Rpc.Mux.{same, bind}
use qtalk.Legacy.Qrpc.{failure, returns, Run, Handler}
use qtalk.Legacy.Qrpc.Export.{Exportable, other, null, answered, throws, get_own, export_value}

-- A registered value: what `v.serveRPC` is, if that is a function, and the value as `Export` takes it,
-- which happens at each call.
pub record Registered (A : Type 0) : Type 0 where
  pub serving : Option (Handler A)
  pub value : Exportable A

-- A value without a function `serveRPC`
abbrev pub exported : {A : Type 0} → Exportable A → Registered A
exported v = record { serving = none; value = v }

pub record ObjectManager (A : Type 0) : Type 0 where
  pub values : List (Text × Registered A)
  pub mount_path : Text

pub record ManagedObject (A : Type 0) : Type 0 where
  pub id : Text
  pub value : Registered A

-- `path.replace(pattern, "")`: the first occurrence is taken out.
abbrev pub remove_first : Text → Text → Text
remove_first pattern [] = []
remove_first pattern (c ∷ text) =
    let later = remove_first pattern text in
    if starts_with (c ∷ text) pattern then drop (length pattern) (c ∷ text) else c ∷ later

-- `if (id[0] === "/") { id = id.substr(1); }`
abbrev pub strip_front : Text → Text
strip_front [] = []
strip_front (c ∷ rest) = strip c rest

-- `parts.pop()` of the parts of the path
abbrev pub last_part : List Text → Text
last_part [] = []
last_part (part ∷ parts) = last part parts

abbrev pub not_registered : Text → Text
not_registered path = units "object not registered: " ++ path

module _ {A : Type 0} where
  abbrev pub new_object_manager : ObjectManager A
  new_object_manager = record { values = []; mount_path = slash ∷ [] }

  abbrev pub is_truthy_value : Exportable A → Bool
  is_truthy_value null = false
  is_truthy_value (other test) = test
  is_truthy_value v = true

  abbrev pub is_truthy : Registered A → Bool
  is_truthy v = is_truthy_value v.value

  abbrev pub truthy_only : Option (Registered A) → Option (Registered A)
  truthy_only none = none
  truthy_only (some v) = if is_truthy v then some v else none

  -- `[this.manager.mountPath, this.id].join("/")`
  abbrev pub object_path : ObjectManager A → Text → Text
  object_path m id = m.mount_path ++ slash ∷ id

  -- `register`, with the identifier that `uuid4` gives
  unfoldable pub register :
      Text → Registered A → ObjectManager A → ObjectManager A × ManagedObject A
  register id v m = (record m { values = bind id v m.values }, record { id = id; value = v })

  abbrev pub delete : Text → List (Text × Registered A) → List (Text × Registered A)
  delete id [] = []
  delete id ((key, v) ∷ rest) =
      let later = delete id rest in if same key id then later else (key, v) ∷ later

  -- `dispose` of a managed object
  unfoldable pub dispose : ManagedObject A → ObjectManager A → ObjectManager A
  dispose object m = record m { values = delete object.id m.values }

  abbrev managed : Text → Option (Registered A) → Option (ManagedObject A)
  managed id none = none
  managed id (some v) = some (record { id = id; value = v })

  -- The promises of the two calls of `serveRPC` are not awaited.
  abbrev pub unawaited : Run A → Run A
  unawaited run = answered run.actions

  abbrev pub serve_exported : Result (Handler A) → Handler A
  serve_exported (err e) call args = throws e
  serve_exported (ok handler) call args = unawaited (handler call args)

  -- `if (typeof v.serveRPC === "function")`
  abbrev pub serve_by : Option (Handler A) → Result (Handler A) → Handler A
  serve_by none handler call args = serve_exported handler call args
  serve_by (some serving) handler call args = unawaited (serving call args)

  abbrev pub serve_value : (A → Bool) → Option (Registered A) → Handler A
  serve_value truthy none call args =
      answered (returns (failure (not_registered call.object_path)) ∷ [])
  serve_value truthy (some v) call args = serve_by v.serving (export_value truthy v.value) call args

  -- `values` is a plain object: what `Object.prototype` has under a name is there as well, where no
  -- value is registered under it.
  module _ (inherited : Text → Option (Registered A)) where
    abbrev pub or_inherited : Text → Option (Registered A) → Option (Registered A)
    or_inherited id none = inherited id
    or_inherited id (some v) = some v

    -- `this.values[id]`, and the test `!v`
    unfoldable pub value_at : Text → ObjectManager A → Option (Registered A)
    value_at id m = truthy_only (or_inherited id (get_own id m.values))

    -- The method `object`
    unfoldable pub object_at : Text → ObjectManager A → Option (ManagedObject A)
    unfolding value_at
    object_at path m =
        let id = strip_front (remove_first m.mount_path path) in managed id (value_at id m)

    -- The method `serveRPC`
    unfoldable pub serve_rpc : (A → Bool) → ObjectManager A → Handler A
    unfolding split last value_at
    serve_rpc truthy m call args =
        serve_value truthy (value_at (last_part (split call.object_path)) m) call args
