-- ===== src/Legacy/Qrpc/Routed.antt =====
-- A call from its path to the registered object's function, and back.
use qtalk.Base.{
  ℕ, ◌≡◌, refl, ap, ◌∙◌, Bool, true, false, List, [], ◌∷◌, ◌++◌, append_assoc, Option, none, some,
  ◌==◌,
}
use qtalk.Base.Throws.{ok}
use qtalk.Rpc.Text.{Text, units, slash, starts_with, IsPlain}
use qtalk.Rpc.Text.Ends.{last-split, new_call-method}
use qtalk.Rpc.Call.{Call}
use qtalk.Rpc.Mux.{same, proto, has_own_property, has_key, bind}
use qtalk.Rpc.Mux.Prefixes.{IsAlone, bind-handler}
use qtalk.Legacy.Qrpc.{success, returns, answers, return_answer}
use qtalk.Legacy.Qrpc.Export.{Fn, Object, gave, object, get_own, export_func, or_null}
use qtalk.Legacy.Qrpc.Reach.{IsDistinct, function_of, methods-Serves}
use qtalk.Legacy.Qrpc.Objects.{
  Registered, exported, ObjectManager, is_truthy, object_path, register, serve_value, serve_rpc,
}
use qtalk.Legacy.Qrpc.Managed.{starts_with-append, value_at-register}
use qtalk.Legacy.Qrpc.Api.{Entry, manager, mount, serve_api, call, responded}

-- The parsed call of a method of the object at a path.
abbrev pub method_call : Text → Text → Call
method_call path method = record {
  destination = path ++ slash ∷ method;
  object_path = path;
  method = method;
}

module _ {A : Type 0} (inherited : Text → Option (Registered A)) (truthy : A → Bool) where
  serve_rpc-register :
      (m : ObjectManager A) (id method : Text) (v : Registered A) (args : Option A)
      → same id proto ≡ false
      → is_truthy v ≡ true
      → IsPlain id
      → let m' = (register id v m).0 in
        serve_rpc inherited truthy m' (method_call (object_path m' id) method) args
        ≡ serve_value truthy (some v) (method_call (object_path m' id) method) args
  unfolding serve_rpc
  serve_rpc-register m id method v args ordinary real plain =
      let m' = (register id v m).0 in
      let (p, ps, e, ends) = last-split m'.mount_path id plain in
      rw (e, ends, value_at-register inherited id v m ordinary real)

  -- With the manager mounted at a path that does not start with a slash, and no other handler in front
  -- of the destination, a call of a method of a registered object reaches that object.
  serve_api-register :
      (m : ObjectManager A) (api : List (Text × Entry A)) (c : ℕ) (rest id method : Text)
      (v : Registered A) (args : Option A)
      → (c == slash) ≡ false
      → same (c ∷ rest) proto ≡ false
      → has_key has_own_property (bind (c ∷ rest) manager api) ≡ false
      → IsAlone ((c ∷ rest ++ slash ∷ id) ++ slash ∷ method) (c ∷ rest) api
      → same id proto ≡ false
      → is_truthy v ≡ true
      → IsPlain id
      → IsPlain method
      → let (api', mounted) = mount (c ∷ rest) api m in
        let m' = (register id v mounted).0 in
        serve_api inherited truthy m' api' (object_path m' id ++ slash ∷ method) args
        ≡ serve_value truthy (some v) (method_call (object_path m' id) method) args
  unfolding serve_api mount register serve_rpc
  serve_api-register m api c rest id method v args other ordinary usable alone own real plain ends =
      let path = c ∷ rest ++ slash ∷ id in
      let front : starts_with (path ++ slash ∷ method) (c ∷ rest) ≡ true =
        ap (λ t. starts_with t (c ∷ rest)) (append_assoc (c ∷ rest) (slash ∷ id) (slash ∷ method))
        ∙ starts_with-append (c ∷ rest) (slash ∷ id ++ slash ∷ method) in
      let found =
        bind-handler (path ++ slash ∷ method) (c ∷ rest) manager api ordinary usable front alone in
      rw (new_call-method c (rest ++ slash ∷ id) method other ends, found)
        (serve_rpc-register (mount (c ∷ rest) api m).1 id method v args own real plain)

  gave_run :
      (o : Object A) (called : Call) (args x : Option A) (fn : Fn A)
      → o.constructor_name ≡ ok (some (units "Object"))
      → IsDistinct o.own
      → same called.method proto ≡ false
      → get_own has_own_property o.own ≡ none
      → function_of (get_own called.method o.own) ≡ some fn
      → fn args ≡ gave x
      → (serve_value truthy (some (exported (object o))) called args).actions
        ≡ returns (success (or_null truthy x)) ∷ []
  unfolding export_func
  gave_run o called args x fn named distinct ordinary usable has result =
      let (h, e, run) =
        methods-Serves truthy o (some (units "Object")) o.own called args named refl distinct
          ordinary usable in
      rw (e, run, has, result)

  -- A caller of `path()`, a slash and a method of a registered object without a function `serveRPC`,
  -- whose constructor's name is `Object`, gets what the object's own function of that name gives for
  -- the arguments, `null` where a condition takes that for false, and the channel is closed. The
  -- manager is mounted at a path that does not start with a slash, no other handler is in front of
  -- the destination, neither the identifier nor the method has a slash, none of the three is
  -- `__proto__`, the names of the object's properties are distinct, and neither a path nor a
  -- property is named `hasOwnProperty`.
  pub call-register :
      (m : ObjectManager A) (api : List (Text × Entry A)) (c : ℕ) (rest id method : Text)
      (o : Object A) (fn : Fn A) (args x : Option A)
      → (c == slash) ≡ false
      → same (c ∷ rest) proto ≡ false
      → has_key has_own_property (bind (c ∷ rest) manager api) ≡ false
      → IsAlone ((c ∷ rest ++ slash ∷ id) ++ slash ∷ method) (c ∷ rest) api
      → same id proto ≡ false
      → IsPlain id
      → IsPlain method
      → same method proto ≡ false
      → o.constructor_name ≡ ok (some (units "Object"))
      → IsDistinct o.own
      → get_own has_own_property o.own ≡ none
      → function_of (get_own method o.own) ≡ some fn
      → fn args ≡ gave x
      → let (api', mounted) = mount (c ∷ rest) api m in
        let m' = (register id (exported (object o)) mounted).0 in
        call inherited truthy m' api' (object_path m' id ++ slash ∷ method) args
        ≡ responded (record { hijacked = false; reply = or_null truthy x; closes = true })
  unfolding call answers return_answer
  call-register m api c rest id method o fn args x other ordinary usable alone own plain ends
        ordinary_method named distinct no_clash has result =
      let m' = (register id (exported (object o)) (mount (c ∷ rest) api m).1).0 in
      rw (
        serve_api-register m api c rest id method (exported (object o)) args other ordinary usable
            alone own refl plain ends,
        gave_run o (method_call (object_path m' id) method) args x fn named distinct ordinary_method
            no_clash has result,
      )
