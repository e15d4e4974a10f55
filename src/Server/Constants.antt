-- ===== src/Server/Constants.antt =====
-- src/server/handlers/status_list/utils/constants.rs.
use status_list_server.Base.{ℤ, pos, String}

abbrev pub accept_jwt : String
accept_jwt = "application/statuslist+jwt"

abbrev pub accept_cwt : String
accept_cwt = "application/statuslist+cwt"

abbrev pub header_jwt : String
header_jwt = "statuslist+jwt"

abbrev pub cwt_type_value : String
cwt_type_value = "application/statuslist+cwt"

abbrev pub cwt_type : ℤ
cwt_type = pos 16

abbrev pub subject : ℤ
subject = pos 2

abbrev pub issued_at : ℤ
issued_at = pos 6

abbrev pub exp : ℤ
exp = pos 4

abbrev pub ttl : ℤ
ttl = pos 65534

abbrev pub status_list : ℤ
status_list = pos 65533

abbrev pub gzip_header : String
gzip_header = "gzip"
