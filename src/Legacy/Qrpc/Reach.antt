-- ===== src/Legacy/Qrpc/Reach.antt =====
-- Which functions of an exported object a call reaches.
use qtalk.Base.{
  ◌≡◌, refl, sym, ap, ◌∙◌, Bool, true, false, List, [], ◌∷◌, Option, none, some, Bool-cases, inl,
  inr, if◌then◌else◌,
}
use qtalk.Base.Throws.{ok}
use qtalk.Rpc.Text.{Text, units}
use qtalk.Rpc.Call.{Call}
use qtalk.Rpc.Mux.{same, proto, has_own_property, has_key, bind}
use qtalk.Rpc.Mux.Prefixes.{same→eq}
use qtalk.Legacy.Qrpc.{failure, returns, Handler}
use qtalk.Legacy.Qrpc.Export.{
  Fn, missing_method, Object, Exportable, object, is_object, get_own, export_func, add_methods,
  prototype_methods, methods_of, call_method, serve_methods, export_value,
}
use qtalk.Legacy.Qrpc.Methods.{get_own-bind, get_own-bind_ne}

abbrev pub IsDistinct : {V : Type 0} → List (Text × V) → Type 0
IsDistinct [] = Unit {0}
IsDistinct ((key, v) ∷ rest) = (get_own key rest ≡ none) × IsDistinct rest

abbrev constructor_name : Text
constructor_name = units "constructor"

-- A name is no other name's.
apart : (k key p : Text) → same k p ≡ true → same key p ≡ false → same k key ≡ false
apart k key p e other = elim (Bool-cases (same k key)) [
  | inl h ↦ cc (ap (λ j. same j p) (same→eq k key h))
  | inr h ↦ h
]

has_key_of :
    {V : Type 0} (key : Text) (es : List (Text × V))
    → get_own key es ≡ none
    → has_key key es ≡ false
has_key_of key [] h = refl
has_key_of key ((k, v) ∷ es) h = elim (Bool-cases (same k key)) [
  | inl e ↦ cc (rw e at h)
  | inr e ↦ rw e (has_key_of key es (rw e at h))
]

module _ {V : Type 0} where
  absent_as :
      (k key : Text) (es : List (Text × V))
      → same k key ≡ true
      → get_own k es ≡ none
      → get_own key es ≡ none
  absent_as k key es e new = ap (λ j. get_own j es) (sym (same→eq k key e)) ∙ new

  get_own-bind_as :
      (k key : Text) (v : V) (es : List (Text × V))
      → same k key ≡ true
      → same key proto ≡ false
      → get_own key (bind k v es) ≡ some v
  get_own-bind_as k key v es e ordinary =
      ap (λ j. get_own key (bind j v es)) (same→eq k key e) ∙ get_own-bind key v es ordinary

module _ {A : Type 0} where
  -- The property that a name has, if it is a function.
  abbrev pub function_of : Option (Option (Fn A)) → Option (Fn A)
  function_of none = none
  function_of (some f) = f

  module _ (truthy : A → Bool) where
    abbrev or_else : Option (Fn A) → Option (Handler A) → Option (Handler A)
    or_else none before = before
    or_else (some fn) before = some (export_func truthy fn)

    get_own-add_methods :
        (key : Text) (props : List (Text × Option (Fn A))) (handlers : List (Text × Handler A))
        → same key proto ≡ false
        → IsDistinct props
        → get_own key (add_methods truthy props handlers)
          ≡ or_else (function_of (get_own key props)) (get_own key handlers)
    unfolding add_methods
    get_own-add_methods key [] handlers ordinary distinct = refl
    get_own-add_methods key ((k, none) ∷ props) handlers ordinary (new, distinct) =
        let ih = get_own-add_methods key props handlers ordinary distinct in
        elim (Bool-cases (same k key)) [
          | inl e ↦ rw e (rw (absent_as k key props e new) at ih)
          | inr e ↦ rw e ih
        ]
    get_own-add_methods key ((k, some fn) ∷ props) handlers ordinary (new, distinct) =
        let more = bind k (export_func truthy fn) handlers in
        let ih = get_own-add_methods key props more ordinary distinct in
        elim (Bool-cases (same k key)) [
          | inl e ↦ rw e (
              rw (absent_as k key props e new) at ih
              ∙ get_own-bind_as k key (export_func truthy fn) handlers e ordinary)
          | inr e ↦ rw e (rw (get_own-bind_ne k key (export_func truthy fn) handlers e) at ih)
        ]

    -- The methods of a plain object answer by the function that the method's name has.
    serve-add_methods :
        (props : List (Text × Option (Fn A))) (call : Call) (args : Option A)
        → IsDistinct props
        → same call.method proto ≡ false
        → get_own has_own_property props ≡ none
        → serve_methods (add_methods truthy props []) call args
          ≡ call_method (or_else (function_of (get_own call.method props)) none) call args
    unfolding serve_methods
    serve-add_methods props call args distinct ordinary usable =
        let reserved = get_own-add_methods has_own_property props [] refl distinct in
        rw (
          has_key_of has_own_property (add_methods truthy props []) (rw usable at reserved),
          get_own-add_methods call.method props [] ordinary distinct,
        )

module _ {A : Type 0} where
  get_own-prototype_methods :
      (key : Text) (props : List (Text × Option (Fn A)))
      → same key constructor_name ≡ false
      → get_own key (prototype_methods props) ≡ get_own key props
  get_own-prototype_methods key [] method = refl
  get_own-prototype_methods key ((k, f) ∷ props) method =
      let ih = get_own-prototype_methods key props method in
      elim (Bool-cases (same k constructor_name)) [
        | inl e ↦ rw (e, apart k key constructor_name e method) ih
        | inr e ↦ rw (e, ih)
      ]

  prototype_methods_absent :
      (key : Text) (props : List (Text × Option (Fn A)))
      → get_own key props ≡ none
      → get_own key (prototype_methods props) ≡ none
  prototype_methods_absent key [] h = refl
  prototype_methods_absent key ((k, f) ∷ props) h = elim (Bool-cases (same k key)) [
    | inl e ↦ cc (rw e at h)
    | inr e ↦
        let ih = prototype_methods_absent key props (rw e at h) in
        elim (Bool-cases (same k constructor_name)) [ inl c ↦ rw (c, ih) | inr c ↦ rw (c, e, ih) ]
  ]

  no_constructor :
      (props : List (Text × Option (Fn A)))
      → get_own constructor_name (prototype_methods props) ≡ none
  no_constructor [] = refl
  no_constructor ((k, f) ∷ props) = elim (Bool-cases (same k constructor_name)) [
    | inl e ↦ rw (e, no_constructor props)
    | inr e ↦ rw (e, e, no_constructor props)
  ]

  prototype_methods-IsDistinct :
      (props : List (Text × Option (Fn A)))
      → IsDistinct props
      → IsDistinct (prototype_methods props)
  prototype_methods-IsDistinct [] distinct = tt
  prototype_methods-IsDistinct ((k, f) ∷ props) (new, distinct) =
      let rest = prototype_methods-IsDistinct props distinct in
      elim (Bool-cases (same k constructor_name)) [
        | inl e ↦ rw e rest
        | inr e ↦ rw e (prototype_methods_absent k props new, rest)
      ]

  -- What a call of a method comes to, by the function that is there under the method's name.
  abbrev pub reached : (A → Bool) → Option (Fn A) → Handler A
  reached truthy none call args = record {
    actions = returns (failure (missing_method call.method)) ∷ [];
    ends = ok tt;
  }
  reached truthy (some fn) call args = export_func truthy fn call args

  abbrev pub Serves : (A → Bool) → Exportable A → Option (Fn A) → Call → Option A → Type 0
  Serves truthy v f call args =
      (h : Handler A) × (export_value truthy v ≡ ok h) × (h call args ≡ reached truthy f call args)

  -- The function that an instance of a class has for a method's name.
  abbrev pub instance_function : Text → List (Text × Option (Fn A)) → Option (Fn A)
  instance_function method props =
      if same method constructor_name then none else function_of (get_own method props)

  call_method-reached :
      (truthy : A → Bool) (f : Option (Fn A)) (call : Call) (args : Option A)
      → call_method (or_else truthy f none) call args ≡ reached truthy f call args
  call_method-reached truthy none call args = refl
  call_method-reached truthy (some fn) call args = refl

  pub methods-Serves :
      (truthy : A → Bool) (v : Object A) (name : Option Text) (props : List (Text × Option (Fn A)))
      (call : Call) (args : Option A)
      → v.constructor_name ≡ ok name
      → methods_of v name ≡ ok props
      → IsDistinct props
      → same call.method proto ≡ false
      → get_own has_own_property props ≡ none
      → Serves truthy (object v) (function_of (get_own call.method props)) call args
  unfolding export_value
  methods-Serves truthy v name props call args named taken distinct ordinary usable = (
    serve_methods (add_methods truthy props []),
    rw named (rw taken refl),
    serve-add_methods truthy props call args distinct ordinary usable
        ∙ call_method-reached truthy (function_of (get_own call.method props)) call args,
  )

  instance_props :
      (method : Text) (props : List (Text × Option (Fn A)))
      → function_of (get_own method (prototype_methods props)) ≡ instance_function method props
  instance_props method props = elim (Bool-cases (same method constructor_name)) [
    | inl e ↦ rw e (
        ap (λ m. function_of (get_own m (prototype_methods props)))
          (same→eq method constructor_name e)
        ∙ ap function_of (no_constructor props))
    | inr e ↦ rw (e, get_own-prototype_methods method props e)
  ]

  -- A call of an exported object whose constructor's name is `Object` reaches the function that the
  -- object itself has under the method's name. If the constructor's name is another, or is no text, it
  -- reaches the one that the object has under a name of its prototype, never the constructor. Where
  -- there is none the answer is the error that the method does not exist. The names are distinct, none
  -- is `hasOwnProperty`, and the method is not `__proto__`.
  pub export_value-Serves :
      (truthy : A → Bool) (props own : List (Text × Option (Fn A)))
      (prototype : Option (List (Text × Option (Fn A)))) (name : Option Text) (call : Call)
      (args : Option A)
      → IsDistinct props
      → same call.method proto ≡ false
      → get_own has_own_property props ≡ none
      → is_object name ≡ false
      → Serves truthy
          (object (record {
            constructor_name = ok (some (units "Object"));
            own = props;
            prototype = prototype;
          }))
          (function_of (get_own call.method props))
          call
          args
        × Serves truthy
            (object (record { constructor_name = ok name; own = own; prototype = some props }))
            (instance_function call.method props)
            call
            args
  export_value-Serves truthy props own prototype name call args distinct ordinary usable another =
      let plain : Object A = record {
        constructor_name = ok (some (units "Object"));
        own = props;
        prototype = prototype;
      } in
      let instance_of : Object A = record {
        constructor_name = ok name;
        own = own;
        prototype = some props;
      } in
      let (h, e, same_run) =
        methods-Serves truthy instance_of name (prototype_methods props) call args refl (rw another)
          (prototype_methods-IsDistinct props distinct) ordinary
          (prototype_methods_absent has_own_property props usable) in
      (
        methods-Serves truthy plain (some (units "Object")) props call args refl refl distinct
            ordinary usable,
        (h, e, same_run ∙ ap (λ f. reached truthy f call args) (instance_props call.method props)),
      )
