-- ===== src/Ipc/Authored.antt =====
-- Who writes the messages that the window is answered with.
use ap_hub.Prelude.{
  ◌≡◌, refl, Bool, true, false, not, ◌&&◌, Option, none, some, Result, ok, err, option_is,
  if◌then◌else◌,
}
use ap_hub.Text.{Text}
use ap_hub.Ipc.Errors.{internal}
use ap_hub.Ipc.Envelope.{IpcResult, Response, failure, decode}
use ap_hub.Ipc.Context.{Raw}
use ap_hub.Ipc.Registry.{RegistryEntry}
use ap_hub.Ipc.Dispatch.{Shell, Call, prepare, check_answer, run_call, dispatch}
use ap_hub.Ipc.Reached.{Authored, plain, prepare-Refusal}

module _ {V W : Type 0} (shell : Shell V W) where
  decode-Authored :
      (channel : Text) (response : Response)
      → Authored shell channel (decode shell.platform response)
  unfolding decode
  decode-Authored channel response = plain refl

  choice-Authored :
      (channel : Text) (test : Bool) (r r' : IpcResult V)
      → Authored shell channel r
      → Authored shell channel r'
      → Authored shell channel (if test then r else r')
  choice-Authored channel true r r' p q = p
  choice-Authored channel false r r' p q = q

  check_answer-Authored :
      (channel : Text) (entry : RegistryEntry V W) (answer : Option Response)
      → Authored shell channel (check_answer shell entry answer)
  unfolding check_answer failure
  check_answer-Authored channel entry none = plain refl
  check_answer-Authored channel entry (some response) =
      let result = decode shell.platform response in
      choice-Authored channel
        (result.ok && option_is (λ data_. not (entry.accepts data_)) result.data_)
        (failure internal 500 none) result (plain refl) (decode-Authored channel response)

  run_call-Authored :
      (channel : Text) (raw : Raw V) (w : W) (r : Result (IpcResult V) (Call V W))
      → prepare shell channel raw ≡ r
      → Authored shell channel (run_call shell r w).0
  unfolding run_call
  run_call-Authored channel raw w (err refusal) e = (prepare-Refusal shell channel raw e).1
  run_call-Authored channel raw w (ok call) e =
      check_answer-Authored channel call.entry (call.entry.invoke call.request call.payload w).0

  -- Every message that a call answers with is the sentence of the code that it answers with, or, with
  -- the code for a payload that is not valid, the sentence that the channel's own entry has for it:
  -- no text of a service, of an error or of the payload is passed on as a message. Where there is no
  -- code there is no message.
  pub dispatch-Authored :
      (channel : Text) (raw : Raw V) (w : W)
      → Authored shell channel (dispatch shell channel raw w).0
  unfolding dispatch
  dispatch-Authored channel raw w = run_call-Authored channel raw w (prepare shell channel raw) refl
