-- ===== src/Gateway/Page.antt =====
-- internal/gateway/page.go: the pages that the gateway shows to a person.
use ai_cloud_operator.Base.{ℕ, String, List, Option, none, some, Bool, true, false, GoError}

pub data PageKind : Type 0 where
  loading failed stopped not_found unauthenticated : PageKind

pub record PageData : Type 0 where
  pub kind : PageKind
  pub name : String
  pub message : String
  pub refresh_seconds : ℕ
  pub show_refresh : Bool

-- A request to the API server's services/proxy subresource. The scheme and the host are those of
-- the API server.
pub record Upstream : Type 0 where
  pub path : String
  pub query : List (String × String)

-- What the gateway answers: a page, a text of http.Error, or what the API server makes of the
-- forwarded request.
pub data Reply : Type 0 where
  page : (status : ℕ) → PageData → Reply
  error : (status : ℕ) → String → Reply
  forward : Upstream → Reply

-- `execute` runs the HTML template.
module _ (execute : PageData → Option GoError) where
  unfoldable pub render_page : ℕ → PageData → Reply
  render_page status content = elim (execute content) [
    | none ↦ page status content
    | some _ ↦ error 500 "internal error"
  ]

  unfoldable pub render_loading_page : String → ℕ → Reply
  unfolding render_page
  render_loading_page name seconds = render_page 200 (record {
    kind = PageKind.loading;
    name = name;
    message = "";
    refresh_seconds = seconds;
    show_refresh = true;
  })

  unfoldable pub render_failed_page : String → String → ℕ → Reply
  unfolding render_page
  render_failed_page name message seconds = render_page 503 (record {
    kind = PageKind.failed;
    name = name;
    message = message;
    refresh_seconds = seconds;
    show_refresh = true;
  })

  unfoldable pub render_stopped_page : String → Reply
  unfolding render_page
  render_stopped_page name = render_page 200 (record {
    kind = PageKind.stopped;
    name = name;
    message = "";
    refresh_seconds = 0;
    show_refresh = false;
  })

  unfoldable pub render_not_found_page : String → Reply
  unfolding render_page
  render_not_found_page name = render_page 404 (record {
    kind = PageKind.not_found;
    name = name;
    message = "";
    refresh_seconds = 0;
    show_refresh = false;
  })

  unfoldable pub render_unauthenticated_page : String → Reply
  unfolding render_page
  render_unauthenticated_page name = render_page 401 (record {
    kind = PageKind.unauthenticated;
    name = name;
    message = "";
    refresh_seconds = 0;
    show_refresh = false;
  })
