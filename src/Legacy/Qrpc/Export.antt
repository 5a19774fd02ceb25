-- ===== src/Legacy/Qrpc/Export.antt =====
-- javascript/legacy/qrpc/src/qrpc.ts: `exportFunc` and `Export`, which make handlers of functions and
-- objects.
use qtalk.Base.{Bool, false, List, [], ◌∷◌, ◌++◌, Option, none, some, if◌then◌else◌}
use qtalk.Base.Throws.{Error, Result, ok, err, type_error, not_exportable, ◌>>=◌}
use qtalk.Rpc.Text.{Text, units}
use qtalk.Rpc.Mux.{same, has_own_property, has_key, bind}
use qtalk.Legacy.Qrpc.{failure, success, Action, returns, Run, Handler}

-- What a function throws, by its `typeof`. An object has a message, if `e.message` is there, and the
-- text that `+` makes of it; the last is a number, a Boolean or a function, by that text.
pub data Thrown : Type 0 where
  thrown_string : Text → Thrown
  thrown_undefined thrown_null : Thrown
  thrown_object : Option Text → Text → Thrown
  thrown_other : Text → Thrown

-- How the promise of an exported function ends; `none` is `undefined` or `null`.
pub data Ended (A : Type 0) : Type 0 where
  gave : Option A → Ended A
  gave_error : Text → Ended A
  threw : Thrown → Ended A

-- An exported function, applied to its receiver.
abbrev pub Fn : Type 0 → Type 0
Fn A = Option A → Ended A

-- An object, by what reading `v.constructor.name` gives (`none` for what is no text), the properties
-- that `for (key in v)` and `v.hasOwnProperty(key)` let through, and the property names of its
-- prototype, if it has one. Each name comes with what the object has there if it is a function.
pub record Object (A : Type 0) : Type 0 where
  pub constructor_name : Result (Option Text)
  pub own : List (Text × Option (Fn A))
  pub prototype : Option (List (Text × Option (Fn A)))

-- What is exported: a function; an object; a value of another type, which a condition takes for true
-- or false; `null`.
pub data Exportable (A : Type 0) : Type 0 where
  function : Fn A → Exportable A
  object : Object A → Exportable A
  other : Bool → Exportable A
  null : Exportable A

-- The text of a value behind a text
abbrev pub text_of : Thrown → Text
text_of (thrown_string s) = s
text_of thrown_undefined = units "undefined"
text_of thrown_null = units "null"
text_of (thrown_object message text) = text
text_of (thrown_other text) = text

-- `new Error(e.message)`, whose message is empty where `e` has none.
abbrev pub message_of : Thrown → Result Text
message_of (thrown_object (some message) text) = ok message
message_of thrown_undefined = err type_error
message_of thrown_null = err type_error
message_of _ = ok []

-- `this.values[id]` and `handlers[c.method]`, as far as the object's own properties
abbrev pub get_own {ℓ} : {V : Type ℓ} → Text → List (Text × V) → Option V
get_own key [] = none
get_own key ((k, v) ∷ rest) = let later = get_own key rest in if same k key then some v else later

abbrev pub missing_method : Text → Text
missing_method method = units "method handler does not exist for this destination: " ++ method

-- `name === "Object"`
abbrev pub is_object : Option Text → Bool
is_object none = false
is_object (some name) = same name (units "Object")

module _ {A : Type 0} where
  abbrev pub answered : List (Action A) → Run A
  answered actions = record { actions = actions; ends = ok tt }

  abbrev pub throws : Error → Run A
  throws e = record { actions = []; ends = err e }

  abbrev pub first_return : Text → Run A → Run A
  first_return message run = record run { actions = returns (failure message) ∷ run.actions }

  -- The `switch` of the `catch`: no case has a `break`, so each runs the ones below it as well.
  abbrev pub default_case : Thrown → Run A
  default_case e = answered (returns (failure (units "unknown error: " ++ text_of e)) ∷ [])

  abbrev pub object_case : Thrown → Run A
  object_case e = from_message (message_of e)
    where
      from_message : Result Text → Run A
      from_message (err thrown) = throws thrown
      from_message (ok message) = first_return message (default_case e)

  abbrev pub undefined_case : Thrown → Run A
  undefined_case e = first_return (units "unknown error") (object_case e)

  abbrev pub catch_thrown : Thrown → Run A
  catch_thrown (thrown_string s) = first_return s (undefined_case (thrown_string s))
  catch_thrown thrown_undefined = undefined_case thrown_undefined
  catch_thrown thrown_null = object_case thrown_null
  catch_thrown (thrown_object message text) = object_case (thrown_object message text)
  catch_thrown (thrown_other text) = default_case (thrown_other text)

  -- `if (propName != "constructor" && ...)`
  abbrev pub prototype_methods : List (Text × Option (Fn A)) → List (Text × Option (Fn A))
  prototype_methods [] = []
  prototype_methods ((key, value) ∷ props) =
      let rest = prototype_methods props in
      if same key (units "constructor") then rest else (key, value) ∷ rest

  -- A value as a condition sees it is `truthy` or not.
  module _ (truthy : A → Bool) where
    -- `v || null`
    abbrev pub or_null : Option A → Option A
    or_null none = none
    or_null (some v) = if truthy v then some v else none

    abbrev pub by_end : Ended A → Run A
    by_end (gave v) = answered (returns (success (or_null v)) ∷ [])
    by_end (gave_error message) = answered (returns (failure message) ∷ [])
    by_end (threw e) = catch_thrown e

    unfoldable pub export_func : Fn A → Handler A
    export_func fn call args = by_end (fn args)

    -- The loop over the properties, which puts a handler in `handlers` for each function.
    unfoldable pub add_methods :
        List (Text × Option (Fn A)) → List (Text × Handler A) → List (Text × Handler A)
    add_methods [] handlers = handlers
    add_methods ((key, none) ∷ props) handlers = add_methods props handlers
    add_methods ((key, some fn) ∷ props) handlers =
        add_methods props (bind key (export_func fn) handlers)

  abbrev pub call_method : Option (Handler A) → Handler A
  call_method none call args = answered (returns (failure (missing_method call.method)) ∷ [])
  call_method (some handler) call args = handler call args

  -- The `serveRPC` of an exported object. Where `hasOwnProperty` is one of its methods, the test is
  -- a call of that method's handler, which is no function.
  unfoldable pub serve_methods : List (Text × Handler A) → Handler A
  serve_methods handlers call args =
      if has_key has_own_property handlers
      then throws type_error
      else call_method (get_own call.method handlers) call args

  -- `Object.getPrototypeOf(v)` and the names that its loop takes
  abbrev pub prototype_props :
      Option (List (Text × Option (Fn A))) → Result (List (Text × Option (Fn A)))
  prototype_props none = err type_error
  prototype_props (some props) = ok (prototype_methods props)

  -- The two branches of `if (v.constructor.name === "Object")`
  abbrev pub methods_of : Object A → Option Text → Result (List (Text × Option (Fn A)))
  methods_of v name = if is_object name then ok v.own else prototype_props v.prototype

  unfoldable pub export_value : (A → Bool) → Exportable A → Result (Handler A)
  unfolding add_methods serve_methods export_func
  export_value truthy (function fn) = ok (export_func truthy fn)
  export_value truthy (object v) = do
    name ← v.constructor_name
    props ← methods_of v name
    ok (serve_methods (add_methods truthy props []))
  export_value truthy (other test) = err not_exportable
  export_value truthy null = err type_error
