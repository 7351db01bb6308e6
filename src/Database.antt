-- ===== src/Database.antt =====
-- The tables that the dispatch of actions reads: schema.prisma. `rest` stands for every other column and table,
-- which only the handlers of the actions read and write. The roles of the staff stand in the order of their
-- creation.
use intereng_api.Base.{ℕ, String, Bool, Option, List}

pub record Competition : Type 0 where
  pub id : String
  pub is_active : Bool

pub record Edition : Type 0 where
  pub id : String
  pub competition : String
  pub start_date : ℕ
  pub is_active : Bool
  pub revision : ℕ

pub record StaffMember : Type 0 where
  pub id : String
  pub email : String
  pub name : String
  pub is_super_admin : Bool

pub data RoleType : Type 0 where
  edition_admin discipline_manager team_manager : RoleType

pub record StaffRole : Type 0 where
  pub edition : String
  pub staff : String
  pub role : RoleType
  pub discipline : Option String
  pub team : Option String
  pub revoked : Bool

-- A discipline of an edition, by the name of the discipline.
pub record EditionDiscipline : Type 0 where
  pub id : String
  pub edition : String
  pub name : String

pub record EditionTeam : Type 0 where
  pub edition : String
  pub team : String
  pub name : String

pub record EditionAthlete : Type 0 where
  pub edition : String
  pub athlete : String
  pub team : Option String

pub record RosterEntry : Type 0 where
  pub athlete : String
  pub discipline : String

pub record TournamentRow : Type 0 where
  pub id : String
  pub discipline : String

-- A match, by the category of its phase.
pub record MatchRow : Type 0 where
  pub id : String
  pub tournament : String

pub record Tables (R : Type 0) : Type 0 where
  pub competitions : List Competition
  pub editions : List Edition
  pub staff : List StaffMember
  pub roles : List StaffRole
  pub disciplines : List EditionDiscipline
  pub teams : List EditionTeam
  pub athletes : List EditionAthlete
  pub rosters : List RosterEntry
  pub tournaments : List TournamentRow
  pub matches : List MatchRow
  pub rest : R

-- AuthenticatedUser
pub record User : Type 0 where
  pub id : String
  pub is_super_admin : Bool
