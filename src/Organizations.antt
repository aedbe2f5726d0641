-- ===== src/Organizations.antt =====
-- Organizations and partners: store.py of apps/api/src/voiceagent_api.
mod Defs
mod Methods
pub mod Slugs
pub use Defs.{
  Words, WritesNumbers, OrganizationUpdateRequest, PartnerAccountCreateRequest, candidate, is_taken,
}
unfoldable pub use Defs.{
  get_partner_or_404, dashed, base_slug_of, first_free, generate_unique_slug, check_slug,
  serialize_partner_account,
}
unfoldable pub use Methods.{
  get_current_organization, updated_organization, update_organization, get_partner, joined,
  list_partner_accounts, refer, create_partner_account,
}
