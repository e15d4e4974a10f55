-- ===== src/Outbound/Sql/Rows.antt =====
-- src/outbound/sql/models.rs: the rows of the tables, and the conversions of src/outbound/sql/mod.rs.
use status_list_server.Base.{ℕ, ℤ, String}
use status_list_server.Domain.Model.{StatusListRecord, StatusListSnapshot, StatusList}

pub record StoredList : Type 0 where
  pub bits : ℕ
  pub lst : String

pub record ListRow : Type 0 where
  pub list_id : String
  pub issuer : String
  pub status_list : StoredList
  pub sub : String
  pub updated_at : ℤ

pub record HistoryRow : Type 0 where
  pub snapshot_id : String
  pub list_id : String
  pub issuer : String
  pub status_list : StoredList
  pub sub : String
  pub iat : ℤ
  pub exp : ℤ

-- The key is a JSON web key, of a type that the token library gives.
pub record Credentials (Jwk : Type 0) : Type 0 where
  pub issuer : String
  pub public_key : Jwk

abbrev from_stored : StoredList → StatusList
from_stored l = record { bits = l.bits; lst = l.lst }

abbrev to_stored : StatusList → StoredList
to_stored l = record { bits = l.bits; lst = l.lst }

abbrev pub record_of_row : ListRow → StatusListRecord
record_of_row row = record {
  list_id = row.list_id;
  issuer = record { name = row.issuer };
  status_list = from_stored row.status_list;
  sub = row.sub;
  updated_at = row.updated_at;
}

abbrev pub row_of_record : StatusListRecord → ListRow
row_of_record r = record {
  list_id = r.list_id;
  issuer = r.issuer.name;
  status_list = to_stored r.status_list;
  sub = r.sub;
  updated_at = r.updated_at;
}

abbrev pub snapshot_of_row : HistoryRow → StatusListSnapshot
snapshot_of_row row = record {
  snapshot_id = row.snapshot_id;
  list_id = row.list_id;
  issuer = record { name = row.issuer };
  status_list = from_stored row.status_list;
  sub = row.sub;
  iat = row.iat;
  exp = row.exp;
}

abbrev pub row_of_snapshot : StatusListSnapshot → HistoryRow
row_of_snapshot x = record {
  snapshot_id = x.snapshot_id;
  list_id = x.list_id;
  issuer = x.issuer.name;
  status_list = to_stored x.status_list;
  sub = x.sub;
  iat = x.iat;
  exp = x.exp;
}
