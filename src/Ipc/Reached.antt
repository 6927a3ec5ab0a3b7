-- ===== src/Ipc/Reached.antt =====
-- Which calls of a channel reach a wrapper, and with what; what the others answer.
use ap_hub.Prelude.{
  ◌≡◌, refl, sym, ap, true, false, ◌⊎◌, inl, inr, Option, none, some, List, [], ◌∷◌, find, Result,
  ok, err, guard, present, >>=-err, guard-err, present-err, ok-err, err_injective, subst, guard->>=,
  >>=-ok, present-ok, ok_injective,
}
use ap_hub.Text.{Text, text_eq}
use ap_hub.Ipc.Errors.{validation, internal}
use ap_hub.Ipc.Envelope.{Request, Fields, IpcResult, synthesize, failure, message_of}
use ap_hub.Ipc.Context.{Raw, identity_fields_in, current_session_cookie, contains}
use ap_hub.Ipc.Registry.{RegistryEntry}
use ap_hub.Ipc.Dispatch.{
  DatabaseState, ready, starting, failed, channel_refused, or_object, is_nil, database_open, Shell,
  Call, prepare, run_call, dispatch,
}

-- The conditions under which a wrapper is called, and the request that it is given.
pub record Reached {V W : Type 0} (shell : Shell V W) (channel : Text) (raw : Raw V) (w : W)
    (w' : W) : Type 0 where
  pub allowed : contains channel shell.allowed ≡ true
  pub entry : RegistryEntry V W
  pub found : find (λ e. text_eq e.channel channel) shell.registry.by_channel ≡ some entry
  pub opened : shell.database ≡ ready
  pub anonymous : identity_fields_in shell.platform raw ≡ []
  pub payload : Fields V
  pub parsed : entry.safe_parse (or_object raw) ≡ some payload
  pub cookie : Option Text
  pub held : current_session_cookie shell.sign shell.session_token ≡ some cookie
  pub request : Request
  pub made : synthesize shell.platform entry.spec payload cookie ≡ some request
  pub changed : w' ≡ (entry.invoke request payload w).1

-- A message is the sentence of the code, or the one of the channel's own entry for its validation.
pub data Authored {V W : Type 0} (shell : Shell V W) (channel : Text) (r : IpcResult V)
    : Type 0 where
  plain : r.message ≡ message_of r.code → Authored shell channel r
  own :
      (entry : RegistryEntry V W)
      → find (λ e. text_eq e.channel channel) shell.registry.by_channel ≡ some entry
      → r.code ≡ some validation
      → r.message ≡ entry.validation_message
      → Authored shell channel r

is_nil-nil : (texts : List Text) → is_nil texts ≡ true → texts ≡ []
is_nil-nil [] h = refl
is_nil-nil (text ∷ texts) h = cc

module _ {V W : Type 0} (shell : Shell V W) where
  database_open-ready :
      (database : DatabaseState) → database_open {V = V} database ≡ ok tt → database ≡ ready
  database_open-ready ready e = refl
  database_open-ready starting e = cc
  database_open-ready failed e = cc

  abbrev pub IsRefusal : Text → IpcResult V → Type 0
  IsRefusal channel refusal = (refusal.ok ≡ false) × Authored shell channel refusal

  database_open-Refusal :
      (channel : Text) (database : DatabaseState) {refusal : IpcResult V}
      → database_open database ≡ err refusal
      → IsRefusal channel refusal
  unfolding failure
  database_open-Refusal channel ready e = ok-err (IsRefusal channel) e
  database_open-Refusal channel starting e =
      subst (IsRefusal channel) (err_injective e) (refl, plain refl)
  database_open-Refusal channel failed e =
      subst (IsRefusal channel) (err_injective e) (refl, plain refl)

  validation-Refusal :
      (channel : Text) (entry : RegistryEntry V W) (message : Option Text)
      → find (λ e. text_eq e.channel channel) shell.registry.by_channel ≡ some entry
      → entry.validation_message ≡ message
      → IsRefusal channel (failure validation 400 message)
  unfolding failure
  validation-Refusal channel entry none found e = (refl, plain refl)
  validation-Refusal channel entry (some message) found e = (refl, own entry found refl (sym e))

  pub prepare-Refusal :
      (channel : Text) (raw : Raw V) {refusal : IpcResult V}
      → prepare shell channel raw ≡ err refusal
      → IsRefusal channel refusal
  unfolding prepare channel_refused failure
  prepare-Refusal channel raw e =
      let P = IsRefusal channel in
      >>=-err P (guard (contains channel shell.allowed) channel_refused) _ e
        (λ h. guard-err P _ channel_refused h (refl, plain refl))
        λ _ _ e.
          >>=-err P
            (present (find (λ e. text_eq e.channel channel) shell.registry.by_channel)
              channel_refused)
            _ e (λ h. present-err P _ channel_refused h (refl, plain refl))
            λ entry found e.
              >>=-err P (database_open shell.database) _ e
                (database_open-Refusal channel shell.database)
                λ _ _ e.
                  >>=-err P
                    (guard (is_nil (identity_fields_in shell.platform raw))
                      (failure validation 400 none))
                    _ e (λ h. guard-err P _ (failure validation 400 none) h (refl, plain refl))
                    λ _ _ e.
                      >>=-err P
                        (present (entry.safe_parse (or_object raw))
                          (failure validation 400 entry.validation_message))
                        _ e
                        (λ h. present-err P _ (failure validation 400 entry.validation_message) h (
                          validation-Refusal channel entry entry.validation_message
                            (present-ok _ _ found) refl))
                        λ payload _ e.
                          >>=-err P
                            (present (current_session_cookie shell.sign shell.session_token)
                              (failure internal 500 none))
                            _ e
                            (λ h. present-err P _ (failure internal 500 none) h (refl, plain refl))
                            λ cookie _ e.
                              >>=-err P
                                (present (synthesize shell.platform entry.spec payload cookie)
                                  (failure internal 500 none))
                                _ e
                                (λ h.
                                  present-err P _ (failure internal 500 none) h (refl, plain refl))
                                λ request _ e. ok-err P e

  prepare-Reached :
      (channel : Text) (raw : Raw V) (w : W) (call : Call V W)
      → prepare shell channel raw ≡ ok call
      → Reached shell channel raw w (call.entry.invoke call.request call.payload w).1
  unfolding prepare
  prepare-Reached channel raw w call e =
      let (allowed, e1) = guard->>= (contains channel shell.allowed) channel_refused _ e in
      let (entry, found, e2) = >>=-ok (present _ _) _ e1 in
      let (u, opened, e3) = >>=-ok (database_open shell.database) _ e2 in
      let (anonymous, e4) =
        guard->>= (is_nil (identity_fields_in shell.platform raw)) (failure validation 400 none) _
          e3 in
      let (payload, parsed, e5) = >>=-ok (present _ _) _ e4 in
      let (cookie, held, e6) = >>=-ok (present _ _) _ e5 in
      let (request, made, e7) = >>=-ok (present _ _) _ e6 in
      record {
        allowed = allowed;
        entry = entry;
        found = present-ok _ _ found;
        opened = database_open-ready shell.database opened;
        anonymous = is_nil-nil _ anonymous;
        payload = payload;
        parsed = present-ok _ _ parsed;
        cookie = cookie;
        held = present-ok _ _ held;
        request = request;
        made = present-ok _ _ made;
        changed =
            ap (λ call. (call.entry.invoke call.request call.payload w).1) (sym (ok_injective e7));
      }

  run_call-Reached :
      (channel : Text) (raw : Raw V) (w : W) (r : Result (IpcResult V) (Call V W))
      → prepare shell channel raw ≡ r
      → ((run_call shell r w).1 ≡ w) × ((run_call shell r w).0.ok ≡ false)
        ⊎ Reached shell channel raw w (run_call shell r w).1
  unfolding run_call
  run_call-Reached channel raw w (err refusal) e = inl (refl, (prepare-Refusal channel raw e).0)
  run_call-Reached channel raw w (ok call) e = inr (prepare-Reached channel raw w call e)

  -- A call of a channel either changes nothing and answers that it failed, or it reaches the wrapper
  -- of the channel's own entry, once. Then the channel is allowed, the database is ready, the
  -- payload names no identity and passes the entry's schema, and the wrapper is given the request
  -- that is made from what the schema returned, with the cookie of the session that the main
  -- process holds.
  pub dispatch-Reached :
      (channel : Text) (raw : Raw V) (w : W)
      → ((dispatch shell channel raw w).1 ≡ w) × ((dispatch shell channel raw w).0.ok ≡ false)
        ⊎ Reached shell channel raw w (dispatch shell channel raw w).1
  unfolding dispatch
  dispatch-Reached channel raw w = run_call-Reached channel raw w (prepare shell channel raw) refl
