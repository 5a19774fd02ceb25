-- ===== src/Rpc/Peer/Replies.antt =====
-- What a function of the proxy gives for what the handler gives.
use qtalk.Base.{◌≡◌, refl, ap, ◌∙◌, List, [], ◌∷◌, none, some}
use qtalk.Base.Throws.{ok, >>=-eq-ok}
use qtalk.Rpc.Text.{Text}
use qtalk.Rpc.Call.{Call, new_call, call_at}
use qtalk.Rpc.Mux.{handler}
use qtalk.Rpc.Exchange.{
  plain, null, error_given, given, Action, returns, hijacks, Handled, at_once, decodes, Handler,
  on_args, received,
}
use qtalk.Rpc.Exchange.Answers.{response_of, received-act, exchange-response_of}
use qtalk.Rpc.Peer.{
  Peer, Proxied, replied, thrown, waits, dollar, property_at, respond_undefined, call, params,
  settle, call_property, unread,
}

module _ {A : Type 0} where
  abbrev pub reply_of : Action A → Proxied A
  reply_of (returns (given a)) = replied (plain a)
  reply_of (hijacks (given a)) = replied (plain a)
  reply_of (returns (error_given [])) = replied null
  reply_of (hijacks (error_given [])) = replied null
  reply_of (returns (error_given (c ∷ message))) = thrown (c ∷ message)
  reply_of (hijacks (error_given (c ∷ message))) = thrown (c ∷ message)

  settle-response_of : (a : Action A) → settle (response_of a) ≡ reply_of a
  settle-response_of (returns (given a)) = refl
  settle-response_of (hijacks (given a)) = refl
  settle-response_of (returns (error_given [])) = refl
  settle-response_of (hijacks (error_given [])) = refl
  settle-response_of (returns (error_given (c ∷ message))) = refl
  settle-response_of (hijacks (error_given (c ∷ message))) = refl

  -- The frame of `undefined` is one that a handler cannot decode.
  abbrev reply_unread : Handled A → Proxied A
  reply_unread (at_once a) = reply_of a
  reply_unread (decodes f) = waits

  settle-unread : (handled : Handled A) → settle (received (unread handled)) ≡ reply_unread handled
  settle-unread (at_once a) = ap settle (received-act a) ∙ settle-response_of a
  settle-unread (decodes f) = refl

  -- The handler is given one argument as it is, and several as an array.
  abbrev pub reply_to : (List A → A) → Handler A → Call → List A → Proxied A
  reply_to array h call [] = reply_unread (h call)
  reply_to array h call (a ∷ []) = reply_of (on_args (h call) (plain a))
  reply_to array h call (a ∷ b ∷ rest) = reply_of (on_args (h call) (plain (array (a ∷ b ∷ rest))))

  call_undefined :
      (peer : Peer A) (path : Text) (at : Call) (h : Handler A)
      → call_at path ≡ ok at
      → handler at.destination peer.handlers ≡ ok (some h)
      → call peer path none ≡ received (unread (h at))
  unfolding call respond_undefined
  call_undefined peer path at h same has =
      let (first, sent, second) =
        >>=-eq-ok (new_call path) (λ (c : Call). new_call c.destination) same in
      rw sent (rw second (rw has))

  settle-call :
      (peer : Peer A) (path : Text) (args : A) (at : Call) (h : Handler A)
      → call_at path ≡ ok at
      → handler at.destination peer.handlers ≡ ok (some h)
      → settle (call peer path (some args)) ≡ reply_of (on_args (h at) (plain args))
  unfolding call
  settle-call peer path args at h same has =
      ap settle (exchange-response_of peer.handlers path args at h same has)
      ∙ settle-response_of (on_args (h at) (plain args))

  settle-params :
      (array : List A → A) (peer : Peer A) (path : Text) (args : List A) (at : Call) (h : Handler A)
      → call_at path ≡ ok at
      → handler at.destination peer.handlers ≡ ok (some h)
      → settle (call peer path (params array args)) ≡ reply_to array h at args
  settle-params array peer path [] at h same has =
      ap settle (call_undefined peer path at h same has) ∙ settle-unread (h at)
  settle-params array peer path (a ∷ []) at h same has = settle-call peer path a at h same has
  settle-params array peer path (a ∷ b ∷ rest) at h same has =
      settle-call peer path (array (a ∷ b ∷ rest)) at h same has

  -- A function of the proxy whose name, a dollar sign and a path, finds a handler is resolved with the
  -- value that the handler gives for the arguments, or with `null` if it gives an error without a text,
  -- and rejected by the text of any other error. Without arguments it does so for a handler that answers
  -- without decoding its arguments, and waits for ever for one that decodes them.
  pub call_property-reply_to :
      (array : List A → A) (peer : Peer A) (path : Text) (args : List A) (at : Call) (h : Handler A)
      → call_at path ≡ ok at
      → handler at.destination peer.handlers ≡ ok (some h)
      → call_property array peer (property_at (dollar ∷ path)) args
        ≡ some (reply_to array h at args)
  unfolding call_property property_at
  call_property-reply_to array peer path args at h same has =
      ap some (settle-params array peer path args at h same has)
