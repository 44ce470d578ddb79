-- ===== src/Action/Response.antt =====
-- src/tactioncontext.cpp: the responses that a TActionContext writes, with the writeResponse() of
-- src/tactionthread.cpp. The header is the part of it that this code sets.
use tf.Base.{ℕ, List, [], ◌++◌, Option, none, some, if◌then◌else◌, ◌==◌, leb, length}
use tf.Base.Text.{Text, codes, is_empty}
use tf.HttpUtility.Reasons.{get_response_reason_phrase}

pub record Head : Type 0 where
  pub status_code : ℕ
  pub reason : Text
  pub content_type : Text
  pub content_length : ℕ
  pub server : Text
  pub date : Text
  pub connection : Text
  pub location : Text
  pub last_modified : Text
  pub set_cookies : List Text

-- THttpResponseHeader()
abbrev pub new : Head
new = record {
  status_code = 0;
  reason = [];
  content_type = [];
  content_length = 0;
  server = [];
  date = [];
  connection = [];
  location = [];
  last_modified = [];
  set_cookies = [];
}

-- What goes to the socket: a header with the bytes of a body if there is one, or its end.
pub data Output : Type 0 where
  response : Head → Option Text → Output
  closed : Output

-- Decimal numbers, the files of error pages, the date and the setting HttpKeepAliveTimeout.
pub record Site : Type 0 where
  pub number : ℕ → Text
  pub error_page : ℕ → Text
  pub current_date : Text
  pub keep_alive_timeout : ℕ

abbrev pub not_modified : ℕ
not_modified = 304

module _ (site : Site) where
  abbrev pub kept_alive : Head → Head
  kept_alive h =
      if site.keep_alive_timeout == 0 then h else record h { connection = codes "Keep-Alive" }

  -- writeResponse(header, body, length)
  unfoldable pub write_body : Head → Option Text → ℕ → Output
  write_body header body length =
      response
        (kept_alive (record header {
          content_length = length;
          server = codes "TreeFrog server";
          date = site.current_date;
        }))
        body

  -- writeResponse(statusCode, header, contentType, body, length)
  unfoldable pub write_typed : ℕ → Head → Text → Option Text → ℕ → Output
  unfolding write_body
  write_typed status header content_type body length =
      write_body
        (record header {
          status_code = status;
          reason = get_response_reason_phrase status;
          content_type = if is_empty content_type then header.content_type else content_type;
        })
        body length

  abbrev default_page : ℕ → Text
  default_page status =
      codes "<html><body>"
      ++ (get_response_reason_phrase status
          ++ (codes " (" ++ (site.number status ++ codes ")</body></html>")))

  -- The body of a page for a status: that of a file for an error, or one that is made.
  abbrev pub page : ℕ → Text
  page status =
      let file : Text = if leb 400 status then site.error_page status else [] in
      if is_empty file then default_page status else file

  -- writeResponse(statusCode, header)
  unfoldable pub write_status : ℕ → Head → Output
  unfolding write_typed
  write_status status header =
      if status == not_modified
      then write_typed status header [] none 0
      else write_typed status header (codes "text/html") (some (page status)) (length (page status))
