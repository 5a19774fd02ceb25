-- ===== src/Tests/QrpcRuns.antt =====
-- Runs of javascript/legacy/qrpc.
use qtalk.Base.{
  ℕ, suc, ◌≡◌, ◌≢◌, refl, Bool, true, false, List, [], ◌∷◌, ◌++◌, All, Option, none, some, ltb,
  arith, if◌then◌else◌,
}
use qtalk.Base.Throws.{ok}
use qtalk.Rpc.Text.{Text, slash, units}
use qtalk.Rpc.Call.{Call}
use qtalk.Rpc.Mux.{same, bind, has_key, has_own_property}
use qtalk.Rpc.Frame.{read_frame}
use qtalk.Conn.WebSocket.Stream.{Feed, feed_source}
use qtalk.Legacy.Qrpc.{success, returns, answers, return_answer}
use qtalk.Legacy.Qrpc.Export.{
  Fn, gave, threw, thrown_string, function, Object, object, export_func, answered, serve_methods,
  add_methods,
}
use qtalk.Legacy.Qrpc.Reach.{Serves, function_of, instance_function, export_value-Serves}
use qtalk.Legacy.Qrpc.Objects.{
  Registered, exported, new_object_manager, object_path, truthy_only, register, dispose, value_at,
  object_at,
}
use qtalk.Legacy.Qrpc.Managed.{register-dispose}
use qtalk.Legacy.Qrpc.Api.{Entry, mount, manager, call, responded}
use qtalk.Legacy.Qrpc.Api.{serve_api}
use qtalk.Legacy.Qrpc.Objects.{serve_value, serve_rpc}
use qtalk.Legacy.Qrpc.Export.{export_value}
use qtalk.Rpc.Text.{split, join, init, last}
use qtalk.Rpc.Call.{new_call}
use qtalk.Rpc.Mux.{handler}
use qtalk.Legacy.Qrpc.Routed.{call-register}
use qtalk.Legacy.Qrpc.Garbled.{
  Sent, header_sent, value_sent, first_writes, header_bytes, IsShort, answers_of,
  export_func-read_frame,
}

-- Values are numbers, of which a condition takes zero for false.
abbrev truthy : ℕ → Bool
truthy n = ltb 0 n

abbrev next : Fn ℕ
next none = gave none
next (some n) = gave (some (suc n))

abbrev echo : Fn ℕ
echo v = gave v

abbrev failing : Fn ℕ
failing v = threw (thrown_string (units "no"))

-- `Object.prototype`, as far as its constructor
abbrev inherited : Text → Option (Registered ℕ)
inherited name = if same name (units "constructor") then some (exported (function echo)) else none

abbrev props : List (Text × Option (Fn ℕ))
props = (units "count", none) ∷ (units "next", some next) ∷ []

-- `Object.prototype`, as far as three of its names
abbrev object_prototype : List (Text × Option (Fn ℕ))
object_prototype =
    (units "constructor", some echo)
    ∷ (units "hasOwnProperty", some echo)
    ∷ (units "toString", some echo)
    ∷ []

abbrev counter : Object ℕ
counter = record { constructor_name = ok (some (units "Object")); own = props; prototype = some [] }

abbrev next_call : Call
next_call = record { destination = units "o/next"; object_path = units "o"; method = units "next" }

export_value-Serves_example :
    Serves truthy (object counter) (function_of (some (some next))) next_call (some 4)
    × Serves truthy
        (object (record {
          constructor_name = ok (some (units "Counter"));
          own = [];
          prototype = some props;
        }))
        (instance_function (units "next") props)
        next_call
        (some 4)
export_value-Serves_example =
    export_value-Serves truthy props [] (some []) (some (units "Counter")) next_call (some 4)
      (refl, (refl, tt)) refl refl refl

-- An object's own function `serveRPC` is called, and the object is not exported.
own_serve_rpc :
    serve_value truthy
      (some (record { serving = some (export_func truthy echo); value = object counter }))
      next_call
      (some 4)
    ≡ answered (returns (success (some 4)) ∷ [])
unfolding export_func export_value
own_serve_rpc = refl

-- An object with a function of its own under the name `constructor` is taken for an instance of a
-- class of that function's name. `hasOwnProperty` of its prototype is exported then, and no call of it
-- is answered.
abbrev built : Object ℕ
built = record {
  constructor_name = ok (some (units "constructor"));
  own = (units "constructor", some echo) ∷ (units "next", some next) ∷ [];
  prototype = some object_prototype;
}

own_constructor :
    serve_value truthy (some (exported (object built))) next_call (some 4) ≡ answered []
unfolding export_value add_methods serve_methods bind
own_constructor = refl

register-dispose_example :
    let (m, o) = register (units "a1") (exported (object counter)) new_object_manager in
    (object_at inherited (object_path m o.id) m ≡ some o)
    × (value_at inherited (units "b2") m ≡ value_at inherited (units "b2") new_object_manager)
    × (value_at inherited (units "a1") (dispose o m) ≡ truthy_only (inherited (units "a1")))
    × (value_at inherited (units "b2") (dispose o m)
        ≡ value_at inherited (units "b2") new_object_manager)
register-dispose_example =
    register-dispose inherited (units "a1") (exported (object counter)) new_object_manager
      (units "b2") refl refl refl

abbrev mount_path : Text
mount_path = units "objs"

usable : has_key has_own_property (bind {H = Entry ℕ} mount_path manager []) ≡ false
unfolding bind
usable = refl

call-register_example :
    let (api, mounted) = mount (units "objs") [] new_object_manager in
    let m = (register (units "a1") (exported (object counter)) mounted).0 in
    call inherited truthy m api (object_path m (units "a1") ++ slash ∷ units "next") (some 4)
    ≡ responded (record { hijacked = false; reply = some 5; closes = true })
call-register_example =
    call-register inherited truthy new_object_manager [] b'o' (units "bjs") (units "a1")
      (units "next") counter next (some 4) (some 5) refl refl usable tt refl (refl, (refl, tt))
      (refl, (refl, (refl, (refl, tt)))) refl refl (refl, (refl, tt)) refl refl refl

-- A codec that writes a header as an object of one text, and a value as one byte.
abbrev encode : Sent ℕ → List ℕ
encode (header_sent header) = 129 ∷ elim header.error [ none ↦ [] | some message ↦ message ]
encode (value_sent v) = 192 ∷ []

-- The channel of a caller whose call failed.
abbrev failed_channel : Feed
failed_channel = record {
  conn = record { buf = []; waiters = []; is_closed = false; sent = []; socket_closed = false };
  arrivals =
      first_writes encode (answers_of encode truthy failing next_call none)
      ∷ header_bytes encode truthy (units "no")
      ∷ [];
}

answers_of-IsShort : All (IsShort encode truthy) (answers_of encode truthy failing next_call none)
unfolding answers return_answer export_func
answers_of-IsShort = (
  (omega arith, omega arith),
  ((omega arith, omega arith), ((omega arith, omega arith), ((omega arith, omega arith), tt))),
)

export_func-read_frame_example :
    (read_frame feed_source failed_channel).0 ≢ ok (some (header_bytes encode truthy (units "no")))
export_func-read_frame_example =
    export_func-read_frame encode truthy feed_source failing next_call none
      (thrown_string (units "no")) failed_channel (header_bytes encode truthy (units "no"))
      (units "no") 128 (units "no") refl tt refl answers_of-IsShort (refl, refl) refl

-- A call of an object that nobody registered reaches what every object inherits.
reaches_constructor :
    call inherited truthy
      (mount mount_path [] new_object_manager).1
      (mount mount_path [] new_object_manager).0
      (units "objs/constructor/anything")
      (some 4)
    ≡ responded (record { hijacked = false; reply = some 4; closes = true })
unfolding mount call serve_api serve_rpc answers return_answer value_at export_value export_func
    new_call split join last init bind handler
reaches_constructor = refl
