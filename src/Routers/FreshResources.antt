-- ===== src/Routers/FreshResources.antt =====
-- The methods behind the routes of organizations, phone numbers, integrations and knowledge bases
-- (store.py) leave a request without a stored response.
use real_voice_agent_free.Prelude.{
  String, refl, Option, none, some, List, DateTime, nat_eq, Bool-cases, inl, inr,
}
use real_voice_agent_free.Json.{Json}
use real_voice_agent_free.Env.{Env, CacheWrite}
use real_voice_agent_free.Models.{IdempotencyKeyModel, IntegrationModel, OrganizationModel}
use real_voice_agent_free.Db.{
  organizations, partner_accounts, phone_numbers, integrations, knowledge_bases,
  knowledge_base_documents,
}
use real_voice_agent_free.Session.{fail}
use real_voice_agent_free.Session.Keeps.{Keeps, keeps_rules, Keeps-bind, Keeps-pure}
use real_voice_agent_free.Idempotency.{Request}
use real_voice_agent_free.Idempotency.Replay.{IsFresh}
use real_voice_agent_free.Idempotency.Frame.{
  KeysAre, KeysAre-new_id, KeysAre-commit, KeysAre-insert, KeysAre-save, session-IsFresh,
}
use real_voice_agent_free.Organizations.{
  Words, PartnerAccountCreateRequest, get_partner_or_404, base_slug_of, generate_unique_slug,
  check_slug, refer, create_partner_account,
}
use real_voice_agent_free.Resources.{
  PhoneNumberCreateRequest, PhoneNumberUpdateRequest, KnowledgeBaseCreateRequest,
  KnowledgeBaseDocumentCreateRequest, create_phone_number, update_phone_number, put_integration,
  connect, connect_integration, test_integration, create_knowledge_base, add_knowledge_document,
}
use real_voice_agent_free.Routers.Keys.{KeysAre-emit_event}
use real_voice_agent_free.Routers.Fresh.{IsFresh-new_id, IsFresh-committed}

module _ (env : Env) (rows : List IdempotencyKeyModel) (log : List CacheWrite) where
  KeysAre-base_slug :
      (words : Words) (payload : PartnerAccountCreateRequest)
      → Keeps (KeysAre rows log) (base_slug_of env words payload)
  unfolding base_slug_of
  KeysAre-base_slug words payload = search (keeps_rules, KeysAre-new_id rows log env)

  KeysAre-check_slug : (o : OrganizationModel) → Keeps (KeysAre rows log) (check_slug o)
  unfolding check_slug fail
  KeysAre-check_slug o = Keeps-bind _ _ (search keeps_rules) λ others.
      elim (Bool-cases (nat_eq others 0)) [
        | inl e ↦ rw e (Keeps-pure tt)
        | inr e ↦ rw e (record { at = λ w h. h })
      ]

  KeysAre-refer :
      (words : Words) (payload : PartnerAccountCreateRequest) (org trace : String) (now : DateTime)
      → Keeps (KeysAre rows log) (refer env words payload org trace now)
  unfolding refer get_partner_or_404 generate_unique_slug
  KeysAre-refer words payload org trace now =
      search
        (
          keeps_rules,
          KeysAre-base_slug,
          KeysAre-new_id rows log env,
          KeysAre-check_slug,
          KeysAre-insert rows log organizations (λ xs d. refl),
          KeysAre-insert rows log partner_accounts (λ xs d. refl),
          KeysAre-emit_event env rows log,
        )
        depth 24

  KeysAre-put_integration :
      (org provider : String) (config : Json) (now : DateTime) (found : Option IntegrationModel)
      → Keeps (KeysAre rows log) (put_integration env org provider config now found)
  unfolding put_integration
  KeysAre-put_integration org provider config now none =
      search
        (
          keeps_rules,
          KeysAre-new_id rows log env,
          KeysAre-insert rows log integrations (λ xs d. refl),
        )
        depth 12
  KeysAre-put_integration org provider config now (some i) =
      search (keeps_rules, KeysAre-save rows log integrations (λ xs d. refl)) depth 12

module _ (env : Env) (q : Request) where
  pub create_partner_account-IsFresh :
      (words : Words) (payload : PartnerAccountCreateRequest) (org trace : String) (now : DateTime)
      → Keeps (IsFresh env q) (create_partner_account env words payload org trace now)
  unfolding create_partner_account
  create_partner_account-IsFresh words payload org trace now =
      IsFresh-committed env q _ _ λ rows log. KeysAre-refer env rows log words payload org trace now

  pub create_phone_number-IsFresh :
      (payload : PhoneNumberCreateRequest) (org : String) (now : DateTime)
      → Keeps (IsFresh env q) (create_phone_number env payload org now)
  unfolding create_phone_number
  create_phone_number-IsFresh payload org now = Keeps-bind _ _ (IsFresh-new_id env q "num_" 8) λ id.
      IsFresh-committed env q _ _ λ rows log. KeysAre-insert rows log phone_numbers (λ xs d. refl) _

  pub update_phone_number-IsFresh :
      (id : String) (payload : PhoneNumberUpdateRequest) (org : String) (now : DateTime)
      → Keeps (IsFresh env q) (update_phone_number id payload org now)
  unfolding update_phone_number
  update_phone_number-IsFresh id payload org now = session-IsFresh env q _ λ rows log.
      search (keeps_rules, KeysAre-save rows log phone_numbers (λ xs d. refl), KeysAre-commit) depth
        12

  pub connect_integration-IsFresh :
      (words : Words) (provider : String) (config : Json) (org : String) (now : DateTime)
      → Keeps (IsFresh env q) (connect_integration env words provider config org now)
  unfolding connect_integration connect
  connect_integration-IsFresh words provider config org now =
      IsFresh-committed env q _ _
        λ rows log. search (keeps_rules, KeysAre-put_integration env rows log)

  pub test_integration-IsFresh :
      (words : Words) (provider org : String) (now : DateTime)
      → Keeps (IsFresh env q) (test_integration words provider org now)
  unfolding test_integration
  test_integration-IsFresh words provider org now = session-IsFresh env q _ λ rows log.
      search (keeps_rules, KeysAre-save rows log integrations (λ xs d. refl), KeysAre-commit) depth
        12

  pub create_knowledge_base-IsFresh :
      (payload : KnowledgeBaseCreateRequest) (org : String) (now : DateTime)
      → Keeps (IsFresh env q) (create_knowledge_base env payload org now)
  unfolding create_knowledge_base
  create_knowledge_base-IsFresh payload org now =
      Keeps-bind _ _ (IsFresh-new_id env q "kb_" 8) λ id.
        IsFresh-committed env q _ _
          λ rows log. KeysAre-insert rows log knowledge_bases (λ xs d. refl) _

  pub add_knowledge_document-IsFresh :
      (id : String) (payload : KnowledgeBaseDocumentCreateRequest) (org : String) (now : DateTime)
      → Keeps (IsFresh env q) (add_knowledge_document env id payload org now)
  unfolding add_knowledge_document
  add_knowledge_document-IsFresh id payload org now = session-IsFresh env q _ λ rows log.
      search
        (
          keeps_rules,
          KeysAre-new_id rows log env,
          KeysAre-insert rows log knowledge_base_documents (λ xs d. refl),
          KeysAre-save rows log knowledge_bases (λ xs d. refl),
          KeysAre-commit,
        )
        depth 16
