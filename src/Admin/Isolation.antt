-- ===== src/Admin/Isolation.antt =====
-- apps/edge/src/handlers/admin.ts: a write to the sites stays within the organization.
use text.Mathlib.Text.{◌==◌}
use text.Mathlib.TextPositions.{eq_refl}
use challanse.Prelude.{
  ◌≡◌, refl, ap, ◌∙◌, arith, Bool, true, false, not, ◌&&◌, List, [], ◌∷◌, String, select, update,
  add_last, if◌then◌else◌, Bool-cases, inl, inr,
}
use challanse.World.{
  World, Platform, Act, SiteRow, value, pure, guard, response, now_iso, draw_uuid, ◌>>=◌, ◌>>◌,
}
use challanse.World.Frame.{
  Logs, Keeps, Durable, Logs-Keeps, bind-Keeps, bind-Logs, guard-Logs, pure-Logs, now_iso-Logs,
  draw_uuid-Logs,
}
use challanse.Json.{Fields}
use challanse.Auth.{ReviewerContext, given, or_empty}
use challanse.Audit.Events.{site_changed_event, config_changed_event}
use challanse.Graph.{append_field}
use challanse.Audit.Chain.Frame.{timed-Logs}
use challanse.Graph.Frame.{ensure_site_in_graph-Logs}
use challanse.Reviewers.{Identity, reviewer_as, chain_at}
use challanse.Admin.{admins, audit_timed, optional_number}
use challanse.Admin.Sites.{
  SiteBody, update_site, insert_site, write_site, record_site, site_properties, site_changes,
  audit_site, id_or_new, changes_configuration, handle_upsert_site,
}

-- The sites of the other organizations.
abbrev pub other_sites : String → World → List SiteRow
other_sites organization_id w = select (λ s. not (s.organization_id == organization_id)) w.sites

select-update :
    (q t : SiteRow → Bool) (f : SiteRow → SiteRow) (rows : List SiteRow)
    → ((s : SiteRow) → q (f s) ≡ q s)
    → ((s : SiteRow) → t s ≡ true → q s ≡ false)
    → select q (update t f rows) ≡ select q rows
select-update q t f [] same away = refl
select-update q t f (s ∷ rows) same away = elim (Bool-cases (t s)) [
  | inl e ↦
      let gone = away s e in
      let after : q (f s) ≡ false = same s ∙ gone in
      rw (e, after, gone) (select-update q t f rows same away)
  | inr n ↦ rw n (ground (arith, select-update q t f rows same away))
]

select-add_last :
    (q : SiteRow → Bool) (rows : List SiteRow) (row : SiteRow)
    → q row ≡ false
    → select q (add_last rows row) ≡ select q rows
select-add_last q [] row h = ground (arith, h)
select-add_last q (s ∷ rows) row h = ground (arith, h, select-add_last q rows row)

update_site-Keeps :
    (organization_id site_id now : String) (body : SiteBody)
    → Keeps (other_sites organization_id) (update_site organization_id site_id now body)
unfolding update_site
update_site-Keeps organization_id site_id now body = record {
  keeps = λ w.
      select-update (λ s. not (s.organization_id == organization_id))
        (λ s. s.id == site_id && s.organization_id == organization_id) _ w.sites (λ s. refl)
        λ s e. ground (arith, e);
}

insert_site-Keeps :
    (organization_id site_id now : String) (body : SiteBody)
    → Keeps (other_sites organization_id) (insert_site organization_id site_id now body)
unfolding insert_site
insert_site-Keeps organization_id site_id now body = record {
  keeps = λ w.
      select-add_last (λ s. not (s.organization_id == organization_id)) w.sites _
        (ground (arith, eq_refl organization_id));
}

audit_site-Logs :
    (p : Platform) (reviewer : ReviewerContext) (site_id : String) (body : SiteBody)
    → Logs (audit_site p reviewer site_id body)
audit_site-Logs p reviewer site_id body =
    bind-Logs
      (timed-Logs p (chain_at reviewer.organization_id site_id) "SITE_CHANGED" (
        site_changed_event site_id reviewer.organization_id reviewer.email
          (if given body.id then "updated" else "created") (site_changes body)))
      λ _. if_timed (changes_configuration body) (
        config_changed_event reviewer.email reviewer.organization_id (
          append_field (site_changes body) "configuration_version"
            (optional_number body.configuration_version)))
  where
    if_timed :
        (b : Bool) (event : String → Fields)
        → Logs (
            if b
            then audit_timed p (chain_at reviewer.organization_id site_id) "CONFIG_CHANGED" event
            else pure tt)
    if_timed true event =
        timed-Logs p (chain_at reviewer.organization_id site_id) "CONFIG_CHANGED" event
    if_timed false event = pure-Logs tt

write_site-Keeps :
    (b : Bool) (organization_id site_id now : String) (body : SiteBody)
    → Keeps (other_sites organization_id) (
        if b
        then update_site organization_id site_id now body
        else insert_site organization_id site_id now body)
write_site-Keeps true organization_id site_id now body =
    update_site-Keeps organization_id site_id now body
write_site-Keeps false organization_id site_id now body =
    insert_site-Keeps organization_id site_id now body

id_or_new-Logs : (p : Platform) (b : Bool) (id : String) → Logs (if b then pure id else draw_uuid p)
id_or_new-Logs p true id = pure-Logs id
id_or_new-Logs p false id = draw_uuid-Logs p

-- What follows the authentication.
abbrev upsert_site_as : Platform → SiteBody → ReviewerContext → Act (String × String)
upsert_site_as p body reviewer = do
  guard (given body.name) (response 400 "MISSING_NAME")
  now ← now_iso p
  site_id ← id_or_new p body.id
  write_site (given body.id) reviewer.organization_id site_id now body
  record_site p reviewer site_id body
  audit_site p reviewer site_id body
  pure (site_id, or_empty body.name)

upsert_site_as-Keeps :
    (p : Platform) (body : SiteBody) (reviewer : ReviewerContext)
    → Keeps (other_sites reviewer.organization_id) (upsert_site_as p body reviewer)
upsert_site_as-Keeps p body reviewer =
    let g = other_sites reviewer.organization_id in
    let durable : Durable g = (λ w v only. ap g only) in
    bind-Keeps g
      (Logs-Keeps g _ durable (guard-Logs (given body.name) (response 400 "MISSING_NAME")))
      λ _. bind-Keeps g (Logs-Keeps g _ durable (now_iso-Logs p)) λ now.
        bind-Keeps g (Logs-Keeps g _ durable (id_or_new-Logs p (given body.id) (or_empty body.id)))
          λ site_id.
            bind-Keeps g
              (write_site-Keeps (given body.id) reviewer.organization_id site_id now body)
              λ _.
                bind-Keeps g
                  (Logs-Keeps g _ durable (
                    ensure_site_in_graph-Logs p site_id reviewer.organization_id
                      (site_properties body)))
                  λ _.
                    bind-Keeps g (Logs-Keeps g _ durable (audit_site-Logs p reviewer site_id body))
                      λ _. Logs-Keeps g _ durable (pure-Logs (site_id, or_empty body.name))

-- An administrator who creates or changes a site leaves the sites of every other organization as they
-- were, whatever identifier the request names and whether or not the handler returns.
pub handle_upsert_site-other_sites :
    (p : Platform) (identity : Identity) (body : SiteBody) (reviewer : ReviewerContext) (w : World)
    → reviewer_as admins identity w ≡ (value reviewer, w)
    → other_sites reviewer.organization_id (handle_upsert_site p identity body w).1
      ≡ other_sites reviewer.organization_id w
unfolding handle_upsert_site
handle_upsert_site-other_sites p identity body reviewer w h =
    rw h ((upsert_site_as-Keeps p body reviewer).keeps w)
