-- ===== src/Ipc/Registered.antt =====
-- What holds of a registry whose handlers were registered.
use ap_hub.Prelude.{
  ◌≡◌, refl, sym, subst, ◌∙◌, Bool, true, false, not, ◌||◌, arith, some, List, [], ◌∷◌, ◌++◌, map,
  any, ok, All, All-append, All-map, >>=-ok, guard->>=, present-ok, present, ok_injective,
  Bool-cases, inl, inr,
}
use ap_hub.Text.{Text, text_eq, text_eq_sound}
use ap_hub.Ipc.Envelope.{Platform}
use ap_hub.Ipc.Context.{contains, is_identity}
use ap_hub.Ipc.Registry.{
  ObjectShape, is_strict, base_object, RegistryEntry, ChannelContribution, IpcRegistry, keys_of,
  matches_pattern, malformed_channel, request_schema_not_strict, identity_field_in_schema,
  duplicate_channel, channel_without_entry, entry_without_channel, unregistered_channel,
  channel_without_handler, every, check_object, define_channel, has_entry, collect_entries,
  collect_names, all_entries, all_names, build_registry,
}
use ap_hub.Ipc.Dispatch.{register_product_handlers}

not-true : (b : Bool) → not b ≡ true → b ≡ false
not-true true h = cc
not-true false h = refl

every-All :
    (p : Text → Bool) (texts : List Text) → every p texts ≡ true → All (λ t. p t ≡ true) texts
every-All p [] h = tt
every-All p (text ∷ texts) h = (ground arith, every-All p texts (ground arith))

contains-All :
    (P : Text → Type 0) (text : Text) (texts : List Text)
    → All P texts
    → contains text texts ≡ true
    → P text
contains-All P text [] h c = cc
contains-All P text (t ∷ texts) (p, h) c = elim (Bool-cases (text_eq text t)) [
  | inl e ↦ subst P (sym (text_eq_sound text t e)) p
  | inr e ↦ contains-All P text texts h (ground arith)
]

module _ {V W : Type 0} (platform : Platform V) where
  -- The request schema of an entry refuses the keys that it does not name, and names no identity.
  pub record Screened (entry : RegistryEntry V W) : Type 0 where
    pub object : ObjectShape
    pub base : base_object entry.request ≡ some object
    pub strict : is_strict object ≡ true
    pub anonymous : any (is_identity platform) (keys_of object) ≡ false

  define_channel-Screened :
      (entry : RegistryEntry V W) → define_channel platform entry ≡ ok tt → Screened entry
  unfolding define_channel check_object
  define_channel-Screened entry e =
      let (pattern, e1) = guard->>= (matches_pattern entry.channel) malformed_channel _ e in
      let (object, base, e2) = >>=-ok (present _ _) _ e1 in
      let (strict, e3) = guard->>= (is_strict object) request_schema_not_strict _ e2 in
      let (anonymous, e4) =
        guard->>= (not (any (is_identity platform) (keys_of object))) identity_field_in_schema _
          e3 in
      record {
        object = object;
        base = present-ok _ _ base;
        strict = strict;
        anonymous = not-true _ anonymous;
      }

  collect_entries-Screened :
      (seen entries : List (RegistryEntry V W)) {by_channel : List (RegistryEntry V W)}
      → All Screened seen
      → collect_entries platform seen entries ≡ ok by_channel
      → All Screened by_channel
  unfolding collect_entries
  collect_entries-Screened seen [] h e = subst (All Screened) (ok_injective e) h
  collect_entries-Screened seen (entry ∷ entries) h e =
      let (u, defined, e1) = >>=-ok (define_channel platform entry) _ e in
      let (fresh, e2) = guard->>= (not (has_entry entry.channel seen)) duplicate_channel _ e1 in
      collect_entries-Screened (seen ++ entry ∷ []) entries
        (All-append Screened seen (entry ∷ []) h (define_channel-Screened entry defined, tt)) e2

  module _ (allowed reserved : List Text) where
    -- A registry whose entries are screened and can be called, and which has one for every channel
    -- that can be called and is not handled elsewhere.
    pub record Registered (registry : IpcRegistry V W) : Type 0 where
      pub screened : All Screened registry.by_channel
      pub reachable :
          All
            (λ channel. contains channel allowed ≡ true)
            (map (λ e. e.channel) registry.by_channel)
      pub covered :
          All
            (λ channel. (contains channel reserved || has_entry channel registry.by_channel) ≡ true)
            allowed

    -- Where the handlers are registered, the request schema of every entry is strict and names no
    -- identity, every entry's channel can be called from the window, and every channel that can be
    -- called has an entry or is handled elsewhere.
    pub register-Registered :
        (contributions : List (ChannelContribution V W)) {registry : IpcRegistry V W}
        → register_product_handlers platform allowed reserved contributions ≡ ok registry
        → Registered registry
    unfolding register_product_handlers build_registry
    register-Registered contributions e =
        let (built, b, e1) = >>=-ok (build_registry platform contributions) _ e in
        let (by_channel, collected, b1) =
          >>=-ok (collect_entries platform [] (all_entries contributions)) _ b in
        let (declared, names, b2) = >>=-ok (collect_names [] (all_names contributions)) _ b1 in
        let (with_entry, b3) =
          guard->>= (every (λ channel. has_entry channel by_channel) declared) channel_without_entry
            _ b2 in
        let (with_name, b4) =
          guard->>= (every (λ channel. contains channel declared) (map (λ e. e.channel) by_channel))
            entry_without_channel _ b3 in
        let (registered, e2) =
          guard->>= (every (λ channel. contains channel allowed) built.channels)
            unregistered_channel _ e1 in
        let (handled, e3) =
          guard->>=
            (every (λ channel. contains channel reserved || has_entry channel built.by_channel)
              allowed)
            channel_without_handler _ e2 in
        let same = sym (ok_injective b4) in
        let listed =
          every-All (λ channel. contains channel allowed) declared
            (subst (λ r. every (λ channel. contains channel allowed) r.channels ≡ true) same
              registered) in
        subst Registered (ok_injective b4 ∙ ok_injective e3) record {
          screened = collect_entries-Screened [] (all_entries contributions) tt collected;
          reachable =
              All-map (λ channel. contains channel declared ≡ true)
                (λ channel. contains channel allowed ≡ true)
                (λ c. contains-All (λ channel. contains channel allowed ≡ true) c declared listed)
                (map (λ e. e.channel) by_channel)
                (every-All (λ channel. contains channel declared) _ with_name);
          covered =
              every-All (λ channel. contains channel reserved || has_entry channel by_channel)
                allowed
                (subst
                  (λ r.
                    every (λ channel. contains channel reserved || has_entry channel r.by_channel)
                      allowed
                    ≡ true)
                  same handled);
        }
