-- ===== src/Status.antt =====
-- src/engine/ftp_status_codes.h: the status codes of the replies.
use cftp_server.Base.{ℕ, Bool, false, ◌||◌, ◌==◌, List, [], ◌∷◌, String}

unfoldable pub ftp_status_codes : List (String × ℕ)
ftp_status_codes =
    ("FTP_STATUS_RESTART_MARKER", 110)
    ∷ ("FTP_STATUS_SERVICE_READY_SOON", 120)
    ∷ ("FTP_STATUS_DATA_CONNECTION_OPEN", 125)
    ∷ ("FTP_STATUS_FILE_STATUS_OKAY", 150)
    ∷ ("FTP_STATUS_COMMAND_OK", 200)
    ∷ ("FTP_STATUS_COMMAND_NOT_IMPLEMENTED", 202)
    ∷ ("FTP_STATUS_SYSTEM_STATUS", 211)
    ∷ ("FTP_STATUS_DIRECTORY_STATUS", 212)
    ∷ ("FTP_STATUS_FILE_STATUS", 213)
    ∷ ("FTP_STATUS_HELP_MESSAGE", 214)
    ∷ ("FTP_STATUS_NAME_SYSTEM_TYPE", 215)
    ∷ ("FTP_STATUS_SERVICE_READY", 220)
    ∷ ("FTP_STATUS_SERVICE_CLOSING", 221)
    ∷ ("FTP_STATUS_DATA_CONNECTION_CLOSING", 226)
    ∷ ("FTP_STATUS_ENTERING_PASSIVE_MODE", 227)
    ∷ ("FTP_STATUS_ENTERING_EPSV_MODE", 229)
    ∷ ("FTP_STATUS_USER_LOGGED_IN", 230)
    ∷ ("FTP_STATUS_LOGOUT_SUCCESSFUL", 231)
    ∷ ("FTP_STATUS_FILE_ACTION_OK", 250)
    ∷ ("FTP_STATUS_PATHNAME_CREATED", 257)
    ∷ ("FTP_STATUS_USER_NAME_OK", 331)
    ∷ ("FTP_STATUS_NEED_ACCOUNT", 332)
    ∷ ("FTP_STATUS_FILE_ACTION_PENDING", 350)
    ∷ ("FTP_STATUS_SERVICE_NOT_AVAILABLE", 421)
    ∷ ("FTP_STATUS_CANNOT_OPEN_DATA", 425)
    ∷ ("FTP_STATUS_CONNECTION_CLOSED", 426)
    ∷ ("FTP_STATUS_FILE_ACTION_NOT_TAKEN", 450)
    ∷ ("FTP_STATUS_ACTION_ABORTED", 451)
    ∷ ("FTP_STATUS_INSUFFICIENT_STORAGE", 452)
    ∷ ("FTP_STATUS_SYNTAX_ERROR", 500)
    ∷ ("FTP_STATUS_SYNTAX_ERROR_PARAMS", 501)
    ∷ ("FTP_STATUS_COMMAND_NOT_IMPLEMENTED_PERM", 502)
    ∷ ("FTP_STATUS_BAD_SEQUENCE", 503)
    ∷ ("FTP_STATUS_UNSUPPORTED_TYPE", 504)
    ∷ ("FTP_STATUS_NOT_LOGGED_IN", 530)
    ∷ ("FTP_STATUS_NEED_ACCOUNT_FOR_STOR", 532)
    ∷ ("FTP_STATUS_FILE_ACTION_NOT_TAKEN_PERM", 550)
    ∷ ("FTP_STATUS_PAGE_TYPE_UNKNOWN", 551)
    ∷ ("FTP_STATUS_EXCEEDED_STORAGE_ALLOC", 552)
    ∷ ("FTP_STATUS_FILE_NAME_NOT_ALLOWED", 553)
    ∷ ("FTP_STATUS_AUTH_TLS_OK", 234)
    ∷ []

unfoldable pub is_one_of : List (String × ℕ) → ℕ → Bool
is_one_of [] n = false
is_one_of ((name, code) ∷ codes) n = code == n || is_one_of codes n

unfoldable pub is_status : ℕ → Bool
is_status n = is_one_of ftp_status_codes n
