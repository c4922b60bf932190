-- ===== src/Commands/Idempotency.antt =====
-- `execute` of packages/domain/index.ts and its idempotency records.
use knowledger.Base.{
  ℕ, true, false, ◌||◌, List, [], ◌∷◌, Option, none, some, Option-cases, inl, inr, Text, text_eq,
  text_eq_refl, ◌≡◌, ◌≢◌, ◌⊎◌, text, text_eq→eq, refl, ap, ◌∙◌, sym, arith,
}
use knowledger.Fault.{
  ok, err, failure, require, scope_mismatch, idempotency_conflict, ok_eq, >>=-eq-ok, ◌>>=◌,
}
use knowledger.Json.{
  Json, str, obj, present, assert_record, assert_keys, required_property, prop, is_text, has_own,
}
use knowledger.Json.Canonical.{clone_canonical}
use knowledger.Contracts.Actor.{
  Actor, ActorKind, human, agent, Context, encode_actor, kind_text, assert_context,
}
use knowledger.Contracts.Config.{DomainConfig, ConfigIdentity, configured_identity}
use knowledger.Ledger.Keys.{Key, config_key, idempotency, idempotency_key}
use knowledger.Ledger.Store.{Store, read, read_or, put, put_clone}
use knowledger.Ledger.Laws.{same_prefix, read-put_self, clone_canonical-eq, put_clone-eq}
use knowledger.Commands.Frames.{performing, perform_command-frame}
use knowledger.Commands.Execute.{
  DomainCommand, validate_command, read_config, replay, same_stored_actor, encode_record,
  perform_command, perform_once, store_record, idempotency_digest, execute,
}

-- The record of a command answers the same request.
replay-encode_record :
    (ctx other : Context) (command : DomainCommand) (digest : Text) (result : Json)
    → other.actor ≡ ctx.actor
    → replay other command digest (encode_record ctx command digest result) ≡ clone_canonical result
unfolding replay encode_record assert_record assert_keys has_own prop is_text same_stored_actor
    encode_actor required_property text_eq clone_canonical
replay-encode_record ctx other command digest result same = rw same (simp text_eq_refl)

-- The command of a request, its digest and its outcome once the checks before it have passed.
abbrev pub Performs :
    (List ℕ → Text) → Context → DomainConfig → DomainCommand → Text → Store → Json → Store → Type 0
Performs sha256 ctx config command digest s r t =
    elim (read (idempotency_key ctx.actor.org_id command.command_id) s) [
      | some prior ↦ do result ← replay ctx command digest prior; ok (result, s)
      | none ↦ perform_once sha256 ctx config command digest s
    ]
    ≡ ok (r, t)

module _ (sha256 : List ℕ → Text) (ctx : Context) (value : Json) (s : Store) {r : Json}
    {t : Store} where
  pub execute_parts :
      execute sha256 ctx value s ≡ ok (r, t)
      → (command : DomainCommand) × (config : DomainConfig) × (digest : Text) × (validate_command
            value
          ≡ ok command)
        × (read_config s ≡ ok config)
        × (text_eq ctx.channel_id config.channel_id ≡ true)
        × ((identity : ConfigIdentity) × (configured_identity config ctx.actor ≡ ok identity))
        × (idempotency_digest sha256 command ≡ ok digest)
        × Performs sha256 ctx config command digest s r t
  unfolding execute
  execute_parts h =
      let (a, ea, ha) = >>=-eq-ok (assert_context ctx) _ h in
      let (command, e1, h1) = >>=-eq-ok (validate_command value) _ ha in
      let (config, e2, h2) = >>=-eq-ok (read_config s) _ h1 in
      let (b, e3, h3) =
        >>=-eq-ok (require (text_eq ctx.channel_id config.channel_id) (failure scope_mismatch 409))
          _ h2 in
      let (identity, e4, h4) = >>=-eq-ok (configured_identity config ctx.actor) _ h3 in
      let (digest, e5, h5) = >>=-eq-ok (idempotency_digest sha256 command) _ h4 in
      (command, config, digest, e1, e2, ground arith, (identity, e4), e5, h5)

pub store_record-eq :
    (ctx : Context) (command : DomainCommand) (digest : Text) (done : Json × Store) {r : Json}
    {t : Store}
    → store_record ctx command digest done ≡ ok (r, t)
    → (t
        ≡ put
            (idempotency_key ctx.actor.org_id command.command_id)
            (encode_record ctx command digest r)
            done.1)
      × (clone_canonical r ≡ ok r)
      × (r ≡ done.0)
unfolding store_record
store_record-eq ctx command digest (result, s) {r} {t} h =
    let key = idempotency_key ctx.actor.org_id command.command_id in
    let (cloned, e1, h1) = >>=-eq-ok (clone_canonical result) _ h in
    let (s', e2, h2) = >>=-eq-ok (put_clone key (encode_record ctx command digest cloned) s) _ h1 in
    let stays : cloned ≡ result = clone_canonical-eq result e1 in
    let same_result : r ≡ result = ap (λ (o : Json × Store). o.0) (sym (ok_eq h2)) in
    let same_store : t ≡ s' = ap (λ (o : Json × Store). o.1) (sym (ok_eq h2)) in
    let written : s' ≡ put key (encode_record ctx command digest cloned) s =
      put_clone-eq key (encode_record ctx command digest cloned) s e2 in
    (rw (same_store, written, stays, same_result), rw (same_result, e1, stays), same_result)

store_record-frame :
    (ctx : Context) (command : DomainCommand) (digest : Text) (done : Json × Store) (k : Key)
    {r : Json} {t : Store}
    → store_record ctx command digest done ≡ ok (r, t)
    → same_prefix idempotency k.prefix ≡ false
    → t.at k ≡ done.1.at k
unfolding store_record put_clone clone_canonical put
store_record-frame ctx command digest (result, s) k h apart = ground arith

module _ (sha256 : List ℕ → Text) (ctx : Context) (config : DomainConfig) (command : DomainCommand)
    (digest : Text) (s : Store) {r : Json} {t : Store} where
  pub perform_once-frame :
      (k : Key)
      → perform_once sha256 ctx config command digest s ≡ ok (r, t)
      → (performing k.prefix || same_prefix idempotency k.prefix) ≡ false
      → t.at k ≡ s.at k
  unfolding perform_once
  perform_once-frame k h apart =
      let (done, e, h1) = >>=-eq-ok (perform_command sha256 ctx config command s) _ h in
      store_record-frame ctx command digest done k h1 (ground arith)
      ∙ perform_command-frame sha256 ctx config command s k e (ground arith)

  perform_once-record :
      perform_once sha256 ctx config command digest s ≡ ok (r, t)
      → (read (idempotency_key ctx.actor.org_id command.command_id) t
          ≡ some (encode_record ctx command digest r))
        × (clone_canonical r ≡ ok r)
  unfolding perform_once
  perform_once-record h =
      let (done, e, h1) = >>=-eq-ok (perform_command sha256 ctx config command s) _ h in
      let (written, clones, _) = store_record-eq ctx command digest done h1 in
      (
        rw (written, read-put_self (idempotency_key ctx.actor.org_id command.command_id))
            (unfold encode_record present in refl),
        clones,
      )

-- A request whose record is in the store is answered from it.
execute_known :
    (sha256 : List ℕ → Text) (ctx : Context) (value : Json) (s : Store) (command : DomainCommand)
    (config : DomainConfig) (identity : ConfigIdentity) (digest : Text) (prior : Json)
    → assert_context ctx ≡ ok tt
    → validate_command value ≡ ok command
    → read_config s ≡ ok config
    → text_eq ctx.channel_id config.channel_id ≡ true
    → configured_identity config ctx.actor ≡ ok identity
    → idempotency_digest sha256 command ≡ ok digest
    → read (idempotency_key ctx.actor.org_id command.command_id) s ≡ some prior
    → execute sha256 ctx value s ≡ (replay ctx command digest prior >>= λ result. ok (result, s))
unfolding execute
execute_known sha256 ctx value s command config identity digest prior e1 e2 e3 e4 e5 e6 e7 =
    rw (e1, e2, e3, e4, e5, e6, e7)

-- `replay` reads the actor alone.
replay_actor :
    (ctx other : Context) (command : DomainCommand) (digest : Text) (prior : Json)
    → other.actor ≡ ctx.actor
    → replay other command digest prior ≡ replay ctx command digest prior
unfolding replay
replay_actor ctx other command digest prior same = rw same

pub read_config_eq :
    (s t : Store) → t.at config_key ≡ s.at config_key → read_config t ≡ read_config s
unfolding read_config read_or read
read_config_eq s t h = ground arith

module _ (sha256 : List ℕ → Text) (ctx : Context) (s : Store) {r : Json} {t : Store} where
  -- What the first execution leaves for the second.
  performed :
      (config : DomainConfig) (command : DomainCommand) (digest : Text)
      → read_config s ≡ ok config
      → Performs sha256 ctx config command digest s r t
      → (prior : Json) × (read (idempotency_key ctx.actor.org_id command.command_id) t ≡ some prior)
        × (replay ctx command digest prior ≡ ok r)
        × (read_config t ≡ ok config)
  performed config command digest e h =
      elim (Option-cases (read (idempotency_key ctx.actor.org_id command.command_id) s)) [
        | inl fresh ↦
            let once : perform_once sha256 ctx config command digest s ≡ ok (r, t) =
              rw fresh at h in
            let (recorded, clones) = perform_once-record sha256 ctx config command digest s once in
            (
              encode_record ctx command digest r,
              recorded,
              replay-encode_record ctx ctx command digest r refl ∙ clones,
              read_config_eq s t
                    (perform_once-frame sha256 ctx config command digest s config_key once refl)
                  ∙ e,
            )
        | inr (prior, known) ↦
            let answered : (replay ctx command digest prior >>= λ result. ok (result, s))
                ≡ ok (r, t) =
              rw known at h in
            let (result, e1, e2) = >>=-eq-ok (replay ctx command digest prior) _ answered in
            let same_store : t ≡ s = ap (λ (o : Json × Store). o.1) (sym (ok_eq e2)) in
            let same_result : r ≡ result = ap (λ (o : Json × Store). o.0) (sym (ok_eq e2)) in
            (prior, rw same_store known, rw same_result e1, rw same_store e)
      ]

module _ (sha256 : List ℕ → Text) (ctx other : Context) (value : Json) (s : Store) {r : Json}
    {t : Store} where
  -- Executing a command again, by the same actor in the same channel and with a valid context, returns the
  -- result of the first execution and changes nothing, whatever the transaction and the time are.
  pub execute_replays :
      execute sha256 ctx value s ≡ ok (r, t)
      → other.actor ≡ ctx.actor
      → other.channel_id ≡ ctx.channel_id
      → assert_context other ≡ ok tt
      → execute sha256 other value t ≡ ok (r, t)
  execute_replays h same_actor same_channel valid =
      let (command, config, digest, e1, e2, e3, (identity, e4), e5, h1) =
        execute_parts sha256 ctx value s h in
      let (prior, recorded, answer, e6) = performed sha256 ctx s config command digest e2 h1 in
      execute_known sha256 other value t command config identity digest prior valid e1 e6
        (rw same_channel e3) (rw same_actor e4) e5 (rw same_actor recorded)
      ∙ rw (replay_actor ctx other command digest prior same_actor, answer)

is_text_unique : (v : Option Json) (a b : Text) → is_text v a ≡ true → is_text v b ≡ true → a ≡ b
unfolding is_text
is_text_unique none a b h k = cc
is_text_unique (some (str t)) a b h k = sym (text_eq→eq t a h) ∙ text_eq→eq t b k
is_text_unique (some _) a b h k = cc

abbrev first_unit : Text → ℕ
first_unit [] = 0
first_unit (c ∷ cs) = c

kind_text-injective : (k l : ActorKind) → kind_text k ≡ kind_text l → k ≡ l
unfolding kind_text
kind_text-injective human human h = refl
kind_text-injective human agent h = absurd (omega (arith, ap first_unit h))
kind_text-injective agent human h = absurd (omega (arith, ap first_unit h))
kind_text-injective agent agent h = refl

same_stored_actor_unique :
    (v : Option Json) (a b : Actor)
    → same_stored_actor v a ≡ true
    → same_stored_actor v b ≡ true
    → a ≡ b
unfolding same_stored_actor
same_stored_actor_unique none a b h k = cc
same_stored_actor_unique (some (obj fs)) a b h k = ground (
  arith,
  is_text_unique (prop (text "org_id") fs) a.org_id b.org_id,
  is_text_unique (prop (text "actor_id") fs) a.actor_id b.actor_id,
  is_text_unique (prop (text "kind") fs) (kind_text a.kind) (kind_text b.kind),
  kind_text-injective a.kind b.kind,
)
same_stored_actor_unique (some _) a b h k = cc

-- A record answers only the request that it binds.
replay_conflict :
    (ctx other : Context) (command command' : DomainCommand) (digest digest' : Text)
    (prior r : Json)
    → replay ctx command digest prior ≡ ok r
    → ((digest' ≢ digest) ⊎ (command'.kind ≢ command.kind)) ⊎ (other.actor ≢ ctx.actor)
    → replay other command' digest' prior ≡ err (failure idempotency_conflict 409)
unfolding replay assert_record
replay_conflict ctx other command command' digest digest' (obj fs) r h differs = ground (
  arith,
  is_text_unique (prop (text "command_digest") fs) digest' digest,
  is_text_unique (prop (text "command_type") fs) command'.kind command.kind,
  same_stored_actor_unique (prop (text "actor") fs) other.actor ctx.actor,
)
replay_conflict ctx other command command' digest digest' _ r h differs = cc

module _ (sha256 : List ℕ → Text) (ctx other : Context) (value value' : Json) (s : Store) {r : Json}
    {t : Store} where
  -- The id of a command that was executed is refused to any other request of the organization: one
  -- whose digest, type or actor differs.
  pub execute_conflicts :
      (command command' : DomainCommand) (config : DomainConfig) (identity : ConfigIdentity)
      (digest digest' : Text)
      → execute sha256 ctx value s ≡ ok (r, t)
      → validate_command value ≡ ok command
      → idempotency_digest sha256 command ≡ ok digest
      → read_config s ≡ ok config
      → assert_context other ≡ ok tt
      → validate_command value' ≡ ok command'
      → idempotency_digest sha256 command' ≡ ok digest'
      → configured_identity config other.actor ≡ ok identity
      → text_eq other.channel_id config.channel_id ≡ true
      → other.actor.org_id ≡ ctx.actor.org_id
      → command'.command_id ≡ command.command_id
      → ((digest' ≢ digest) ⊎ (command'.kind ≢ command.kind)) ⊎ (other.actor ≢ ctx.actor)
      → execute sha256 other value' t ≡ err (failure idempotency_conflict 409)
  execute_conflicts command command' config identity digest digest' h e1 e2 e3 f1 f2 f3 f4 f5
        same_org same_id differs =
      let (c, cfg, d, p1, p2, _, _, p5, h1) = execute_parts sha256 ctx value s h in
      let same_command : c ≡ command = ok_eq (sym p1 ∙ e1) in
      let same_config : cfg ≡ config = ok_eq (sym p2 ∙ e3) in
      let digested : idempotency_digest sha256 command ≡ ok d = rw (← same_command) p5 in
      let same_digest : d ≡ digest = ok_eq (sym digested ∙ e2) in
      let (prior, recorded, answer, e6) = performed sha256 ctx s cfg c d p2 h1 in
      execute_known sha256 other value' t command' config identity digest' prior f1 f2
        (e6 ∙ ap ok same_config) f5 f4 f3
        (ap (λ (o : Text). read (idempotency_key o command'.command_id) t) same_org
          ∙ ap (λ (i : Text). read (idempotency_key ctx.actor.org_id i) t)
              (same_id ∙ ap (λ (x : DomainCommand). x.command_id) (sym same_command))
          ∙ recorded)
      ∙ rw (
          replay_conflict ctx other c command' d digest' prior r answer
            (rw (same_digest, same_command) differs))
